-- ===== src/Base/Results.antt =====
-- What a call answers: a value, or the exception that it throws.
use Prim.Native.String.{String}

pub data Error : Type 0 where
  -- `throw new Error(...)`, by what went wrong
  thrown : String → Error
  -- SQLite refuses a row: UNIQUE, PRIMARY KEY or FOREIGN KEY
  constraint : String → Error
  -- a property of null is read
  type_error : Error

-- A TypeScript call either returns or throws.
pub data Result (A : Type 0) : Type 0 where
  err : (thrown_error : Error) → Result A
  ok : (answer : A) → Result A
