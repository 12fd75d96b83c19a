-- ===== src/Mutex/Exclusion.antt =====
-- fs/hepunion/recursivemutex.c: which threads have the lock.
use hepunion.Base.{ℕ, ◌+◌, ◌≡◌, ◌≢◌, true, false, ◌&&◌, none, some}
use hepunion.Base.{arith}
use hepunion.Mutex.{Mutex, Pc, Move, System, Step, Reach, start, holds, counts}
use hepunion.Mutex.{disown, release}
use hepunion.Mutex.{add_first, add_more, spin_first, set_owner, is_mine, is_other, spin_other}
use hepunion.Mutex.{sub_more, sub_last, set_null, spin_free, move₀, move₁, here, next}

-- What holds of the mutex, the thread `x` at `p` and `d`, and the thread `y` at `q` and `e`.
pub record Inv (x y : ℕ) (m : Mutex) (p : Pc) (d : ℕ) (q : Pc) (e : ℕ) : Type 0 where
  pub counted : m.count ≡ counts p d + counts q e
  pub exclusive : (holds p d && holds q e) ≡ false
  pub held_x : holds p d ≡ true → m.held ≡ true
  pub held_y : holds q e ≡ true → m.held ≡ true
  pub owned_x : m.owner ≡ some x → holds q e ≡ false
  pub owned_y : m.owner ≡ some y → holds p d ≡ false
  pub unowned : m.held ≡ false → m.owner ≡ none
  pub done_x : p ≡ disown → d ≡ 0
  pub done_y : q ≡ disown → e ≡ 0
  pub freed_x : p ≡ release → (d ≡ 0) × (m.owner ≡ none)
  pub freed_y : q ≡ release → (e ≡ 0) × (m.owner ≡ none)

Inv-swap : {x y : ℕ} {m : Mutex} {p q : Pc} {d e : ℕ} → Inv x y m p d q e → Inv y x m q e p d
Inv-swap i = record {
  counted = omega (arith, i.counted);
  exclusive = ground (arith, i.exclusive);
  held_x = i.held_y;
  held_y = i.held_x;
  owned_x = i.owned_y;
  owned_y = i.owned_x;
  unowned = i.unowned;
  done_x = i.done_y;
  done_y = i.done_x;
  freed_x = i.freed_y;
  freed_y = i.freed_x;
}

Move-Inv :
    {x y : ℕ} {m n : Mutex} {p q p' : Pc} {d e d' : ℕ}
    → x ≢ y
    → Move x m p d n p' d'
    → Inv x y m p d q e
    → Inv x y n p' d' q e
Move-Inv ne (add_first z) i = ground arith
Move-Inv ne (add_more z) i = ground arith
Move-Inv ne (spin_first z) i = ground arith
Move-Inv ne set_owner i = ground arith
Move-Inv ne (is_mine z) i = ground arith
Move-Inv ne (is_other z) i = ground arith
Move-Inv ne (spin_other z) i = ground arith
Move-Inv ne (sub_more z) i = ground arith
Move-Inv ne (sub_last z) i = ground arith
Move-Inv ne set_null i = ground arith
Move-Inv ne spin_free i = ground arith

abbrev SystemInv : System → Type 0
SystemInv s = Inv 0 1 s.mutex s.pc₀ s.depth₀ s.pc₁ s.depth₁

Step-Inv : {s t : System} → Step s t → SystemInv s → SystemInv t
Step-Inv (move₀ mv) i = Move-Inv (omega arith) mv i
Step-Inv (move₁ mv) i = Inv-swap (Move-Inv (omega arith) mv (Inv-swap i))

start-Inv : SystemInv start
start-Inv = ground arith

Reach-Inv : {s t : System} → SystemInv s → Reach s t → SystemInv t
Reach-Inv i here = i
Reach-Inv i (next r st) = Step-Inv st (Reach-Inv i r)

-- In every state that the accesses of two threads reach from the initialised mutex, they do not
-- both have the lock, while one has it the spin lock is taken, and the count is the sum of what
-- the two threads have added.
pub mutual_exclusion :
    {s : System}
    → Reach start s
    → ((holds s.pc₀ s.depth₀ && holds s.pc₁ s.depth₁) ≡ false)
      × (holds s.pc₀ s.depth₀ ≡ true → s.mutex.held ≡ true)
      × (holds s.pc₁ s.depth₁ ≡ true → s.mutex.held ≡ true)
      × (s.mutex.count ≡ counts s.pc₀ s.depth₀ + counts s.pc₁ s.depth₁)
mutual_exclusion r = let i = Reach-Inv start-Inv r in (i.exclusive, i.held_x, i.held_y, i.counted)
