-- ===== src/Memory/Defs.antt =====
-- `malloc`, `free` and `memcpy` of the C library, over blocks of bytes.
use soqv.Base.{
  ℕ, zero, suc, ◌+◌, Option, none, some, List, [], ◌∷◌, ◌++◌, leb, ◌==◌, if◌then◌else◌, length,
  take, drop,
}

abbrev pub Ptr : Type 0
Ptr = Option ℕ

-- `garbage a i` is what byte `i` of a new block at address `a` happens to hold.
pub record Heap : Type 0 where
  pub next : ℕ
  pub block : ℕ → Option (List ℕ)
  pub garbage : ℕ → ℕ → ℕ

abbrev pub update : (ℕ → Option (List ℕ)) → ℕ → Option (List ℕ) → ℕ → Option (List ℕ)
update f a v b = if a == b then v else f b

abbrev pub tabulate : ℕ → (ℕ → ℕ) → List ℕ
tabulate zero f = []
tabulate (suc n) f = f 0 ∷ tabulate n (λ i. f (suc i))

-- An allocation always succeeds: the program does not test for NULL here.
unfoldable pub malloc : ℕ → Heap → ℕ × Heap
malloc n h = (
  h.next,
  record h {
    next = h.next + 1;
    block = update h.block h.next (some (tabulate n (h.garbage h.next)));
  },
)

-- `free(NULL)` does nothing; a pointer to no block is undefined.
unfoldable pub free : Ptr → Heap → Option Heap
free none h = some h
free (some a) h = elim (h.block a) [
  | none ↦ none
  | some _ ↦ some (record h { block = update h.block a none })
]

-- The bytes `src` written over those of `dst` from index `i` on.
unfoldable pub splice : List ℕ → ℕ → List ℕ → List ℕ
splice dst i src = take i dst ++ (src ++ drop (i + length src) dst)

-- `memcpy(p + i, src, length src)`.
unfoldable pub copy_to : Ptr → ℕ → List ℕ → Heap → Option Heap
copy_to none i src h = none
copy_to (some a) i src h = elim (h.block a) [
  | none ↦ none
  | some dst ↦
      if leb (i + length src) (length dst)
      then some (record h { block = update h.block a (some (splice dst i src)) })
      else none
]
