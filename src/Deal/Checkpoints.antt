-- ===== src/Deal/Checkpoints.antt =====
-- storagemarket/types/dealcheckpoints/checkpoints.go.
use Prim.Native.String.{String}
use text.Mathlib.Text.{◌==◌ as str_eq}
use text.Mathlib.TextEquality.{eq_iff}
use boost.Common.{
  ℕ, ◌≡◌, ◌↔◌, refl, Bool, List, [], ◌∷◌, Option, none, some, arith, if◌then◌else◌, ltb, leb,
}

pub data Checkpoint : Type 0 where
  accepted transferred published publish_confirmed added_piece : Checkpoint
  indexed_and_announced complete : Checkpoint

pub Checkpoint-discrete : Discrete Checkpoint
Checkpoint-discrete = hlevel

-- The value that `iota` gives.
abbrev pub rank : Checkpoint → ℕ
rank accepted = 0
rank transferred = 1
rank published = 2
rank publish_confirmed = 3
rank added_piece = 4
rank indexed_and_announced = 5
rank complete = 6

-- `a < b` and `a <= b` in the source.
abbrev pub before : Checkpoint → Checkpoint → Bool
before a b = ltb (rank a) (rank b)

abbrev pub up_to : Checkpoint → Checkpoint → Bool
up_to a b = leb (rank a) (rank b)

-- The map `names`.
pub to_string : Checkpoint → String
to_string accepted = "Accepted"
to_string transferred = "Transferred"
to_string published = "Published"
to_string publish_confirmed = "PublishConfirmed"
to_string added_piece = "AddedPiece"
to_string indexed_and_announced = "IndexedAndAnnounced"
to_string complete = "Complete"

-- The keys of `names`, in the order in which `init` may meet them.
abbrev checkpoints : List Checkpoint
checkpoints =
    accepted ∷ transferred ∷ published ∷ publish_confirmed ∷ added_piece ∷ indexed_and_announced
    ∷ complete ∷ []

-- Looking a text up in the inverse map that `init` fills.
find_name : String → List Checkpoint → Option Checkpoint
find_name s [] = none
find_name s (c ∷ cs) = let rest = find_name s cs in if str_eq (to_string c) s then some c else rest

-- `FromString`; `none` is its error.
pub from_string : String → Option Checkpoint
from_string s = find_name s checkpoints

find_name_sound :
    (s : String) (cs : List Checkpoint) (c : Checkpoint) → find_name s cs ≡ some c → to_string c ≡ s
unfolding find_name
find_name_sound s [] c h = ground arith
find_name_sound s (x ∷ cs) c h = ground (arith, eq_iff (to_string x) s, find_name_sound s cs c)

from_string-to_string : (c : Checkpoint) → from_string (to_string c) ≡ some c
unfolding from_string find_name to_string
from_string-to_string accepted = refl
from_string-to_string transferred = refl
from_string-to_string published = refl
from_string-to_string publish_confirmed = refl
from_string-to_string added_piece = refl
from_string-to_string indexed_and_announced = refl
from_string-to_string complete = refl

-- A text reads as a checkpoint exactly when it is that checkpoint's name; so names are distinct,
-- and every other text is an error.
pub from_string_iff : (s : String) (c : Checkpoint) → (from_string s ≡ some c) ↔ (to_string c ≡ s)
unfolding from_string
from_string_iff s c = (find_name_sound s checkpoints c, λ e. rw (← e) (from_string-to_string c))
