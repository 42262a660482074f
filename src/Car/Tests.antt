-- ===== src/Car/Tests.antt =====
-- Runs and instances: a root with two leaves, and two readers of a few bytes.
use boost.Common.{
  ℕ, zero, suc, ◌+◌, ◌≤◌, ◌<◌, ◌≡◌, refl, Bool, Bool-cases, true, false, inl, inr, List, [], ◌∷◌,
  ◌++◌, Option, none, some, ◌==◌, if◌then◌else◌, length, drop, take, ok, err, Result, raise, ◌>>=◌,
  arith, ap, lookup, leb,
}
use boost.Car.Writer.{
  BlockInfoCache, WriteError, Stream, Writing, Source, write, write_header, write_blocks, next_cid,
  fetch_block, send_block, skip_write, write_bytes,
}
use boost.Car.Layout.{Block, Relies, body, Fits-empty}
use boost.Car.Walk.{each, Gives, Walks}
use boost.Car.Whole.{Consistent, write-resumes}
use boost.Car.Parts.{
  ReaderAtSize, unexpected_eof, new_multi_reader_at, read_at, contributes, read_parts, need_skip_of,
  at_end, part_error,
}
use boost.Car.Reads.{Holds, joined}
use boost.Car.Search.{Searches, read_at_lem}
use boost.Car.Refs.{Caches, new_ref_count_bicm, get}
use boost.Car.Dropped.{delayed_unref-drops_two, ended}

abbrev nodes : ℕ → Option (List ℕ × List ℕ)
nodes c =
    if c == 10
    then some (11 ∷ 12 ∷ [], 7 ∷ [])
    else if c == 11
    then some ([], 8 ∷ 8 ∷ [])
    else if c == 12
    then some ([], 9 ∷ [])
    else none

abbrev links : ℕ → List ℕ
links c = if c == 10 then 11 ∷ 12 ∷ [] else []

abbrev store : Source
store = record {
  header_size = some 3;
  header = 1 ∷ 2 ∷ 3 ∷ [];
  get_block = nodes;
  ld_size = λ c d. 2 + length d;
  ld_write = λ c d. length d ∷ c ∷ d;
  accept = λ out bytes. (out ++ bytes, true);
}

abbrev relies : Relies store
relies = record { accepts = λ out b. refl; sized = λ c d. omega arith; header_sized = refl }

-- A walk over a DAG of depth one.
abbrev star : (ℕ → Writing (List ℕ)) → ℕ → Writing (Unit {0})
star g root = g root >>= λ ls. each g ls

abbrev blocks : List Block
blocks = (10, (11 ∷ 12 ∷ [], 7 ∷ [])) ∷ (11, ([], 8 ∷ 8 ∷ [])) ∷ (12, ([], 9 ∷ [])) ∷ []

abbrev fresh : Stream
fresh = record { out = []; offset = 0; block_infos = [] }

-- From offset 5, which lies in the block of the root.
from_five : (write store star 10 5 fresh).1.out ≡ 7 ∷ 2 ∷ 11 ∷ 8 ∷ 8 ∷ 1 ∷ 12 ∷ 9 ∷ []
unfolding write write_header write_blocks next_cid fetch_block send_block skip_write write_bytes
    each
from_five = refl

after_root :
    (g : ℕ → Writing (List ℕ)) (P : Stream → Type 0) (ls : List ℕ)
    (x : Result WriteError (List ℕ) × Stream)
    → Gives P ls x
    → ◌≡◌ {A = Result WriteError (Unit {0}) × Stream}
        (elim x.0 [ ok l ↦ each g l x.1 | err e ↦ raise e x.1 ])
        (elim x.0 [ ok l ↦ each g ls x.1 | err e ↦ raise e x.1 ])
after_root g P ls (ok l, s) h = ap (λ k. each g k s) h.0
after_root g P ls (err e, s) h = refl

walks : Walks star links 10 (10 ∷ 11 ∷ 12 ∷ [])
unfolding each
walks = record { visits = λ g P gives s p. after_root g P (11 ∷ 12 ∷ []) (g 10 s) (gives 10 s p) }

node_links : (c : ℕ) (nd : List ℕ × List ℕ) → nodes c ≡ some nd → nd.0 ≡ links c
node_links c nd e = ground (arith, e)

empty_Consistent : Consistent store relies links node_links 5 blocks []
empty_Consistent = record {
  fits = Fits-empty store 3 blocks;
  linked = λ c bi e. absurd (ground (arith, e));
}

write-resumes_example :
    (m : BlockInfoCache) × Consistent store relies links node_links 5 blocks m
    × (write store star 10 5 fresh ≡ (
      ok tt,
      record {
        out = [] ++ drop 5 (store.header ++ body store blocks);
        offset = length (store.header ++ body store blocks);
        block_infos = m;
      },
    ))
write-resumes_example =
    write-resumes store relies links node_links 5 star 10 blocks fresh walks
      (refl, (refl, (refl, tt))) (refl, (refl, (refl, tt))) empty_Consistent (omega arith)

-- A reader of bytes, and a search that tries one index after the other.
abbrev bytes_reader : List ℕ → ReaderAtSize
bytes_reader bytes = record { size = length bytes; read = λ n off. (take n (drop off bytes), none) }

bytes_reader-Holds : (bytes : List ℕ) → Holds (bytes_reader bytes) bytes
bytes_reader-Holds bytes = record { sized = refl; reads = λ n off h. refl }

search_from : (ℕ → Bool) → ℕ → ℕ → ℕ
search_from f i zero = i
search_from f i (suc n) = let later = search_from f (suc i) n in if f i then i else later

search : ℕ → (ℕ → Bool) → ℕ
search n f = search_from f 0 n

search_from-le : (f : ℕ → Bool) (i n : ℕ) → search_from f i n ≤ i + n
unfolding search_from
search_from-le f i zero = omega arith
search_from-le f i (suc n) = ground (arith, search_from-le f (suc i) n)

search_from_below : (f : ℕ → Bool) (i n j : ℕ) → i ≤ j → j < search_from f i n → f j ≡ false
unfolding search_from
search_from_below f i zero j h l = absurd (omega arith)
search_from_below f i (suc n) j h l = elim (Bool-cases (f i)) [
  | inl e ↦ absurd (ground (arith, e, l))
  | inr e ↦ elim (Bool-cases (i == j)) [
    | inl same ↦ (let is : i ≡ j = ground (arith, same) in rw (← is) e)
    | inr other ↦ search_from_below f (suc i) n j (ground (arith, other)) (ground (arith, e, l))
  ]
]

search_from_found :
    (f : ℕ → Bool) (i n : ℕ) → search_from f i n < i + n → f (search_from f i n) ≡ true
unfolding search_from
search_from_found f i zero h = absurd (omega arith)
search_from_found f i (suc n) h = elim (Bool-cases (f i)) [
  | inl e ↦ ground (arith, e)
  | inr e ↦ ground (arith, e, search_from_found f (suc i) n)
]

search-Searches : Searches search
unfolding search
search-Searches = record {
  at_most = λ n f. omega (arith, search_from-le f 0 n);
  below = λ n f r i l. search_from_below f 0 n i (omega arith) l;
  found = λ n f r l. search_from_found f 0 n (omega arith);
}

-- Four bytes from offset 1 of two parts with an empty one between them; and more than there are.
across :
    read_at search
      (new_multi_reader_at
        (bytes_reader (1 ∷ 2 ∷ []) ∷ bytes_reader [] ∷ bytes_reader (3 ∷ 4 ∷ 5 ∷ []) ∷ []))
      3
      1
    ≡ some (2 ∷ 3 ∷ 4 ∷ [], none)
unfolding read_at new_multi_reader_at search search_from contributes read_parts need_skip_of at_end
across = refl

-- A reader that reports the end of its input (1) together with its last bytes: these are lost, and
-- the part that follows is not read.
abbrev eager_reader : List ℕ → ReaderAtSize
eager_reader bytes = record {
  size = length bytes;
  read = λ n off. (take n (drop off bytes), if off + n == length bytes then some 1 else none);
}

eager_end :
    read_at search
      (new_multi_reader_at (eager_reader (1 ∷ 2 ∷ []) ∷ bytes_reader (3 ∷ 4 ∷ []) ∷ []))
      3
      0
    ≡ some ([], some (part_error 1))
unfolding read_at new_multi_reader_at search search_from contributes read_parts need_skip_of at_end
eager_end = refl

read_at_lem_example :
    read_at search
      (new_multi_reader_at (bytes_reader (1 ∷ 2 ∷ []) ∷ bytes_reader (3 ∷ []) ∷ []))
      7
      1
    ≡ some (
      take 7 (drop 1 (joined ((1 ∷ 2 ∷ []) ∷ (3 ∷ []) ∷ []))),
      if leb 7 (length (drop 1 (joined ((1 ∷ 2 ∷ []) ∷ (3 ∷ []) ∷ []))))
          then none
          else some unexpected_eof,
    )
read_at_lem_example =
    read_at_lem search (bytes_reader (1 ∷ 2 ∷ []) ∷ bytes_reader (3 ∷ []) ∷ [])
      ((1 ∷ 2 ∷ []) ∷ (3 ∷ []) ∷ []) 7 1 search-Searches
      (bytes_reader-Holds (1 ∷ 2 ∷ []), (bytes_reader-Holds (3 ∷ []), tt))

-- Two requests on the cache of one payload.
abbrev two_requests : Caches
unfolding get new_ref_count_bicm
two_requests = (get 5 (get 5 new_ref_count_bicm).1).1

delayed_unref-drops_two_example :
    let m' = ended 5 two_requests in
    (lookup 5 m'.cache ≡ none) × (true ≡ true → (get 5 m').0 ≡ m'.new_caches)
unfolding two_requests get new_ref_count_bicm
delayed_unref-drops_two_example =
    delayed_unref-drops_two 5 (record { refs = 2; cache = 0 }) two_requests refl
