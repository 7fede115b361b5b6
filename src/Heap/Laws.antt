-- ===== src/Heap/Laws.antt =====
-- Reads after writes, and addresses that are not in use.
use xmlbeansxx.Prelude.{ℕ, ◌≤◌, ◌≡◌, ◌≢◌, Option, none, some, ◌==◌, if◌then◌else◌, arith}
use xmlbeansxx.Heap.{Node, Heap, update}

pub update_lem :
    (cell : ℕ → Option Node) (p : ℕ) (n : Node) (q : ℕ)
    → update cell p n q ≡ (if p == q then some n else cell q)
unfolding update
update_lem cell p n q = ground arith

pub update_self : (cell : ℕ → Option Node) (p : ℕ) (n : Node) → update cell p n p ≡ some n
unfolding update
update_self cell p n = ground arith

pub update_other :
    (cell : ℕ → Option Node) (p : ℕ) (n : Node) (q : ℕ) → p ≢ q → update cell p n q ≡ cell q
unfolding update
update_other cell p n q h = ground arith

-- Nothing stands at the address that the next object gets, nor behind it.
abbrev pub IsFree : Heap → Type 0
IsFree h = (q : ℕ) → h.next ≤ q → h.cell q ≡ none
