-- ===== src/Mutex/Reentrant.antt =====
-- fs/hepunion/recursivemutex.c: nested locks of a thread on its own.
use hepunion.Base.{ℕ, zero, suc, refl, true, some, arith}
use hepunion.Mutex.{Mutex, Pc, Move}
use hepunion.Mutex.{out}
use hepunion.Mutex.{add_first, add_more, spin_first, set_owner, is_mine, sub_more, sub_last}
use hepunion.Mutex.{set_null, spin_free, recursive_mutex_init}

-- Accesses of one thread in a row.
pub data Run (me : ℕ) (m : Mutex) (p : Pc) (d : ℕ) : Mutex → Pc → ℕ → Type 0 where
  stop : Run me m p d m p d
  then_move :
      {n : Mutex} {q : Pc} {e : ℕ} {k : Mutex} {r : Pc} {f : ℕ}
      → Run me m p d n q e
      → Move me n q e k r f
      → Run me m p d k r f

-- The mutex with `d` locks of the thread.
abbrev pub locked : ℕ → ℕ → Mutex
locked me zero = recursive_mutex_init
locked me (suc d) = record { count = suc d; owner = some me; held = true }

Run-trans :
    {me : ℕ} {n : Mutex} {q : Pc} {e : ℕ} {m : Mutex} {p : Pc} {d : ℕ} {k : Mutex} {r : Pc} {f : ℕ}
    → Run me m p d n q e
    → Run me n q e k r f
    → Run me m p d k r f
Run-trans a stop = a
Run-trans a (then_move b mv) = then_move (Run-trans a b) mv

lock_once : (me d : ℕ) → Run me (locked me d) out d (locked me (suc d)) out (suc d)
lock_once me zero =
    then_move (then_move (then_move stop (add_first refl)) (spin_first refl)) set_owner
lock_once me (suc d) = then_move (then_move stop (add_more (omega arith))) (is_mine refl)

unlock_once : (me d : ℕ) → Run me (locked me (suc d)) out (suc d) (locked me d) out d
unlock_once me zero = then_move (then_move (then_move stop (sub_last refl)) set_null) spin_free
unlock_once me (suc d) = then_move stop (sub_more refl)

-- `n` calls of `recursive_mutex_lock` in a row come back without waiting, the thread owns the
-- mutex with a count of `n`, and `n` calls of `recursive_mutex_unlock` leave it as initialised.
pub nested_locks :
    (me n : ℕ)
    → Run me recursive_mutex_init out 0 (locked me n) out n
      × Run me (locked me n) out n recursive_mutex_init out 0
nested_locks me zero = (stop, stop)
nested_locks me (suc n) =
    let (a, b) = nested_locks me n in (Run-trans a (lock_once me n), Run-trans (unlock_once me n) b)
