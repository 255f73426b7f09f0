-- ===== src/Postcard.antt =====
-- The `postcard` crate, which turns the metadata of a payload into bytes and back. It is not code of
-- this repository: `Postcard` has the two functions that the source calls, and `IsPostcard` says that
-- what was encoded is decoded again.
use slotbus.Base.{ℕ, ◌≡◌, List, Text}
use slotbus.Error.{Outcome, ok, err, serialization}

-- `postcard::Result<A>`; an error is known by its text.
pub data Coded (A : Type 0) : Type 0 where
  coded : A → Coded A
  code_error : Text → Coded A

pub record Postcard (A : Type 0) : Type 0 where
  pub to_allocvec : A → Coded (List ℕ)
  pub from_bytes : List ℕ → Coded A

abbrev pub IsPostcard : {A : Type 0} → Postcard A → Type 0
IsPostcard {A} p =
    (a : A) (bytes : List ℕ) → p.to_allocvec a ≡ coded bytes → p.from_bytes bytes ≡ coded a

-- `From<postcard::Error> for SlotBusError`, which `?` applies.
abbrev pub from_postcard : {A : Type 0} → Coded A → Outcome A
from_postcard (coded a) = ok a
from_postcard (code_error e) = err (serialization e)
