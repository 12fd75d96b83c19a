-- ===== src/Mutex/Starvation.antt =====
-- fs/hepunion/recursivemutex.c: a thread that waits in the branch for another owner.
use hepunion.Base.{ℕ, ◌+◌, ◌≡◌, Bool, true, false}
use hepunion.Base.{arith}
use hepunion.Mutex.{Mutex, Pc, Move, System, Step, Reach, counts}
use hepunion.Mutex.{spin, disown, release}
use hepunion.Mutex.{add_first, add_more, spin_first, set_owner, is_mine, is_other, spin_other}
use hepunion.Mutex.{sub_more, sub_last, set_null, spin_free, move₀, move₁, here, next}

-- The thread is not in the part of `recursive_mutex_unlock` behind a count of 0.
abbrev unlocking : Pc → Bool
unlocking disown = true
unlocking release = true
unlocking _ = false

-- Thread 1 stands before the `spin_lock` of the branch for another owner, the spin lock is taken,
-- thread 0 is not giving it back, and the count has the thread that waits.
pub record IsStuck (s : System) : Type 0 where
  pub waits : s.pc₁ ≡ spin
  pub taken : s.mutex.held ≡ true
  pub kept : unlocking s.pc₀ ≡ false
  pub counted : s.mutex.count ≡ counts s.pc₀ s.depth₀ + counts spin s.depth₁

owner_moves :
    {m n : Mutex} {p q : Pc} {d f : ℕ} (e : ℕ)
    → Move 0 m p d n q f
    → m.held ≡ true
    → unlocking p ≡ false
    → m.count ≡ counts p d + counts spin e
    → (n.held ≡ true) × (unlocking q ≡ false) × (n.count ≡ counts q f + counts spin e)
owner_moves e (add_first z) h k c = absurd (ground arith)
owner_moves e (add_more z) h k c = ground arith
owner_moves e (spin_first z) h k c = absurd (ground arith)
owner_moves e set_owner h k c = ground arith
owner_moves e (is_mine z) h k c = ground arith
owner_moves e (is_other z) h k c = ground arith
owner_moves e (spin_other z) h k c = absurd (ground arith)
owner_moves e (sub_more z) h k c = ground arith
owner_moves e (sub_last z) h k c = absurd (ground arith)
owner_moves e set_null h k c = absurd (ground arith)
owner_moves e spin_free h k c = absurd (ground arith)

waiter_blocked :
    {m n : Mutex} {p q : Pc} {d f : ℕ} → Move 1 m p d n q f → p ≡ spin → m.held ≡ true → ⊥
waiter_blocked (add_first z) w h = ground arith
waiter_blocked (add_more z) w h = ground arith
waiter_blocked (spin_first z) w h = ground arith
waiter_blocked set_owner w h = ground arith
waiter_blocked (is_mine z) w h = ground arith
waiter_blocked (is_other z) w h = ground arith
waiter_blocked (spin_other z) w h = ground arith
waiter_blocked (sub_more z) w h = ground arith
waiter_blocked (sub_last z) w h = ground arith
waiter_blocked set_null w h = ground arith
waiter_blocked spin_free w h = ground arith

Step-IsStuck : {s t : System} → Step s t → IsStuck s → IsStuck t
Step-IsStuck {s} (move₀ mv) i =
    let (a, b, c) = owner_moves s.depth₁ mv i.taken i.kept i.counted in
    record { waits = i.waits; taken = a; kept = b; counted = c }
Step-IsStuck (move₁ mv) i = absurd (waiter_blocked mv i.waits i.taken)

-- From a state where thread 1 waits for the spin lock in the branch for another owner, the lock is
-- taken, thread 0 is not between its last decrement and `spin_unlock`, and the count is what the
-- two threads have added, every state that they reach is such a state: thread 1 never gets the
-- lock.
pub waiter_starves : {s t : System} → IsStuck s → Reach s t → IsStuck t
waiter_starves i here = i
waiter_starves i (next r st) = Step-IsStuck st (waiter_starves i r)
