-- ===== src/Mutex.antt =====
-- fs/hepunion/recursivemutex.c: the recursive mutex, one access to shared memory at a time.
pub mod Reentrant
pub mod Exclusion
pub mod Starvation
use hepunion.Base.{ℕ, zero, suc, ◌+◌, ◌≡◌, ◌≢◌, Bool, true, false, Option, none, some, ◌==◌}
use hepunion.Base.{if◌then◌else◌, ◌-◌}

-- `recursive_mutex_t`; `held` is the state of the spin lock. A thread unlocks only what it has
-- locked, so that the count stays a natural number.
pub record Mutex : Type 0 where
  pub count : ℕ
  pub owner : Option ℕ
  pub held : Bool

-- `recursive_mutex_init`
abbrev pub recursive_mutex_init : Mutex
recursive_mutex_init = record { count = 0; owner = none; held = false }

-- Where a thread stands: outside both functions, or before the next access of one.
pub data Pc : Type 0 where
  out : Pc
  first_spin : Pc  -- before `spin_lock`, with a count of 1
  own : Pc  -- before `mutex->owner = ti`
  check : Pc  -- before the test of the owner
  spin : Pc  -- before `spin_lock`, with a higher count
  disown : Pc  -- before `mutex->owner = NULL`
  release : Pc  -- before `spin_unlock`

-- One access by the thread `me`. The number counts the calls of `recursive_mutex_lock` that have
-- returned and are not undone yet.
pub data Move (me : ℕ) (m : Mutex) : Pc → ℕ → Mutex → Pc → ℕ → Type 0 where
  add_first : {d : ℕ} → m.count ≡ 0 → Move me m out d (record m { count = 1 }) first_spin d
  add_more : {d : ℕ} → m.count ≢ 0 → Move me m out d (record m { count = suc m.count }) check d
  spin_first : {d : ℕ} → m.held ≡ false → Move me m first_spin d (record m { held = true }) own d
  set_owner : {d : ℕ} → Move me m own d (record m { owner = some me }) out (suc d)
  is_mine : {d : ℕ} → m.owner ≡ some me → Move me m check d m out (suc d)
  is_other : {d : ℕ} → m.owner ≢ some me → Move me m check d m spin d
  spin_other : {d : ℕ} → m.held ≡ false → Move me m spin d (record m { held = true }) out (suc d)
  sub_more :
      {d k : ℕ} → m.count ≡ suc (suc k) → Move me m out (suc d) (record m { count = suc k }) out d
  sub_last : {d : ℕ} → m.count ≡ 1 → Move me m out (suc d) (record m { count = 0 }) disown d
  set_null : {d : ℕ} → Move me m disown d (record m { owner = none }) release d
  spin_free : {d : ℕ} → Move me m release d (record m { held = false }) out d

-- Two threads, 0 and 1, and the mutex.
pub record System : Type 0 where
  pub mutex : Mutex
  pub pc₀ : Pc
  pub depth₀ : ℕ
  pub pc₁ : Pc
  pub depth₁ : ℕ

pub data Step (s : System) : System → Type 0 where
  move₀ :
      {m : Mutex} {p : Pc} {d : ℕ}
      → Move 0 s.mutex s.pc₀ s.depth₀ m p d
      → Step s (record s { mutex = m; pc₀ = p; depth₀ = d })
  move₁ :
      {m : Mutex} {p : Pc} {d : ℕ}
      → Move 1 s.mutex s.pc₁ s.depth₁ m p d
      → Step s (record s { mutex = m; pc₁ = p; depth₁ = d })

pub data Reach (s : System) : System → Type 0 where
  here : Reach s s
  next : {t u : System} → Reach s t → Step t u → Reach s u

abbrev pub start : System
start = record { mutex = recursive_mutex_init; pc₀ = Pc.out; depth₀ = 0; pc₁ = Pc.out; depth₁ = 0 }

-- A thread that has the lock: a call of it has returned, or it is about to say so or to give back.
abbrev pub holds : Pc → ℕ → Bool
holds own d = true
holds disown d = true
holds release d = true
holds out zero = false
holds out (suc d) = true
holds first_spin zero = false
holds first_spin (suc d) = true
holds check zero = false
holds check (suc d) = true
holds spin zero = false
holds spin (suc d) = true

-- What a thread adds to the count.
abbrev pub counts : Pc → ℕ → ℕ
counts first_spin d = suc d
counts own d = suc d
counts check d = suc d
counts spin d = suc d
counts out d = d
counts disown d = d
counts release d = d
