-- ===== src/Container/Naming.antt =====
-- That the agent's number of a message names this message: getMessageIdBySeq of messages-out.ts.
use multi_user_agent_platfor.Base.{
  ◌≤◌, Bool, false, some, List, [], ◌∷◌, ◌++◌, ◌==◌, ◌≡◌, refl, arith, num_eq, find, find-eq-some,
  find-eq-none, All, All-append, All-of_In, In, Distinct, Distinct-same, Option-cases, inl, inr,
}
use multi_user_agent_platfor.Types.{MessageIn}
use multi_user_agent_platfor.Container.Outbox.{
  NumberedOut, DeliveredId, max_out, next_odd_seq, platform_id_or, get_message_id_by_seq,
}
use multi_user_agent_platfor.Container.Numbers.{
  Write, by_container, by_host, by_task, by_recurrence, by_update, Writes, empty, and_write,
  Writes-apart, write_message_out-appends,
}

abbrev same_seq : NumberedOut → NumberedOut → Bool
same_seq a b = num_eq a.seq b.seq

In-max_out : (outs : List NumberedOut) (o : NumberedOut) → In o outs → o.seq ≤ max_out outs
unfolding max_out
In-max_out [] o i = absurd i
In-max_out (x ∷ xs) o (inl e) = rw e ground arith
In-max_out (x ∷ xs) o (inr i) = ground (arith, In-max_out xs o i)

Distinct-append :
    (outs : List NumberedOut) (o : NumberedOut)
    → Distinct same_seq outs
    → All (λ x. same_seq x o ≡ false) outs
    → Distinct same_seq (outs ++ o ∷ [])
Distinct-append [] o d h = (tt, tt)
Distinct-append (x ∷ xs) o (d, ds) (h, hs) =
    (All-append _ xs _ d (h, tt), Distinct-append xs o ds hs)

Write-Distinct :
    (outs outs' : List NumberedOut) (ins ins' : List MessageIn)
    → Write outs ins outs' ins'
    → Distinct same_seq outs
    → Distinct same_seq outs'
unfolding next_odd_seq
Write-Distinct a b c d (by_container msg outs outs' ins seq e) h =
    rw (write_message_out-appends msg outs outs' ins seq e)
      (Distinct-append outs _ h (All-of_In _ outs (λ o i. ground (arith, In-max_out outs o i))))
Write-Distinct a b c d (by_host m outs ins ins' e) h = h
Write-Distinct a b c d (by_task now t outs ins ins' e) h = h
Write-Distinct a b c d (by_recurrence now next_run m id outs ins ins' e) h = h
Write-Distinct a b c d (by_update p f outs ins keeps) h = h

Writes-Distinct :
    (outs : List NumberedOut) (ins : List MessageIn) → Writes outs ins → Distinct same_seq outs
Writes-Distinct a b empty = tt
Writes-Distinct a b (and_write outs outs' ins ins' w x) =
    Write-Distinct outs outs' ins ins' x (Writes-Distinct outs ins w)

-- Where messages_out has only rows that the container wrote, the number of each of them leads to
-- this row: to its platform id where the host has stored one, and to its own id otherwise. In
-- messages_in the host may have inserted messages, tasks and their next occurrences and updated
-- rows without touching their numbers, all in whatever order. A direct write of the host to
-- messages_out is excluded.
pub get_message_id_by_seq-Writes :
    (outs : List NumberedOut) (ins : List MessageIn) (delivered : List DeliveredId)
    (o : NumberedOut)
    → Writes outs ins
    → In o outs
    → get_message_id_by_seq o.seq ins outs delivered
      ≡ some (platform_id_or o.message.id (find (λ d. d.message_out_id == o.message.id) delivered))
unfolding get_message_id_by_seq
get_message_id_by_seq-Writes outs ins delivered o w i =
    elim (Option-cases (find (λ m. num_eq m.seq o.seq) ins)) [
      | inr (m, e) ↦
          let (t, j) = find-eq-some _ ins e in
          absurd (Writes-apart outs ins o m w i j (ground (arith, t)))
      | inl no_inbound ↦ elim (Option-cases (find (λ x. num_eq x.seq o.seq) outs)) [
        | inl gone ↦ let wrong = find-eq-none _ outs o gone i in ground arith
        | inr (x, e) ↦
            let (t, j) = find-eq-some _ outs e in
            let same : x ≡ o =
              Distinct-same same_seq (λ a b h. ground (arith, h)) outs x o
                (Writes-Distinct outs ins w) j i t in
            rw (no_inbound, e, same) refl
      ]
    ]
