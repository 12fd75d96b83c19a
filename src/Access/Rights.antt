-- ===== src/Access/Rights.antt =====
-- fs/hepunion/helpers.c, `can_access`: which rights it grants.
use hepunion.Base.{
  ℕ, ◌*◌, ◌/◌, ◌%◌, ◌<◌, ◌≡◌, refl, ap, sym, ◌∙◌, pos, Bool, not, ◌&&◌, ◌||◌, arith, ◌==◌,
}
use hepunion.Base.{if◌then◌else◌, Bool-cases, inl, inr}
use hepunion.Base.Errno.{eacces}
use hepunion.Base.Bits.{bit_and-eighth, one-bit_and, bit_and-low_three}
use hepunion.Kernel.{Kstat}
use hepunion.Access.{match_rights, check_rights, may_exec}
use Prim.Native.Nat.{bit_and}

-- The three bits of the caller's class: owner, group or others.
abbrev class_of : ℕ → ℕ → Kstat → ℕ
class_of fsuid fsgid st =
    (if fsuid == st.uid then st.mode / 8 / 8 else if fsgid == st.gid then st.mode / 8 else st.mode)
    % 8

-- Whether each asked right is among the bits.
abbrev covers : ℕ → ℕ → Bool
covers bits mode = bit_and mode bits == mode

-- Whether anybody may execute the file.
abbrev is_executable : ℕ → Bool
is_executable mode = (mode % 2 == 1) || ((mode / 8 % 2 == 1) || (mode / 8 / 8 % 2 == 1))

eighth_covers : (mode bits : ℕ) → (bit_and (mode * 8) bits == mode * 8) ≡ covers (bits / 8) mode
eighth_covers mode bits = ground (arith, bit_and-eighth mode bits)

owner_covers :
    (mode bits : ℕ) → (bit_and (mode * 64) bits == mode * 64) ≡ covers (bits / 8 / 8) mode
owner_covers mode bits =
    let times : mode * 64 ≡ mode * 8 * 8 = omega arith in
    rw times (eighth_covers (mode * 8) bits ∙ eighth_covers mode (bits / 8))

-- A request of the three rights is compared with the lowest three bits.
three_covers : (mode bits : ℕ) → mode < 8 → covers bits mode ≡ covers (bits % 8) mode
three_covers mode bits few = ap (λ r. r == mode) (sym (bit_and-low_three mode bits few))

match_rights-class :
    (fsuid fsgid : ℕ) (st : Kstat) (mode : ℕ)
    → mode < 8
    → match_rights fsuid fsgid st mode
      ≡ (if covers (class_of fsuid fsgid st) mode then pos 0 else eacces)
unfolding match_rights
match_rights-class fsuid fsgid st mode few =
    let three = λ (bits : ℕ). three_covers mode bits few in
    elim (Bool-cases (fsuid == st.uid)) [
      | inl own ↦
          let granted = owner_covers mode st.mode ∙ three (st.mode / 8 / 8) in
          rw own (ap (λ t. if t then pos 0 else eacces) granted)
      | inr other ↦ elim (Bool-cases (fsgid == st.gid)) [
        | inl group ↦
            let granted = eighth_covers mode st.mode ∙ three (st.mode / 8) in
            rw (other, group) (ap (λ t. if t then pos 0 else eacces) granted)
        | inr all ↦ rw (other, all) (ap (λ t. if t then pos 0 else eacces) (three st.mode))
      ]
    ]

any_executable :
    (mode : ℕ)
    → (not (bit_and 1 mode == 0) || (not (bit_and 8 mode == 0) || not (bit_and 64 mode == 0)))
      ≡ is_executable mode
any_executable mode = ground (
  arith,
  one-bit_and mode,
  one-bit_and (mode / 8),
  one-bit_and (mode / 8 / 8),
  bit_and-eighth 1 mode,
  bit_and-eighth 8 mode,
  bit_and-eighth 1 (mode / 8),
)

-- Of the requests for rights to read, write and execute, the numbers below 8, `can_access` grants to
-- root each one but to execute, and to execute a file that anybody may execute. Any other of them it
-- grants exactly if each asked right is among the three bits of the caller's class: the owner's if
-- the caller owns the file, else the group's if the file is the caller's group's, else those of the
-- others.
pub check_rights-class :
    (fsuid fsgid : ℕ) (st : Kstat) (mode : ℕ)
    → mode < 8
    → check_rights fsuid fsgid st mode ≡ (
        if (fsuid == 0) && (bit_and mode may_exec == 0 || is_executable st.mode)
        then pos 0
        else if covers (class_of fsuid fsgid st) mode
        then pos 0
        else eacces)
unfolding check_rights
check_rights-class fsuid fsgid st mode few =
    let class = match_rights-class fsuid fsgid st mode few in
    let any = any_executable st.mode in
    elim (Bool-cases (fsuid == 0)) [
      | inr user ↦ rw user class
      | inl root ↦ elim (Bool-cases (bit_and mode may_exec == 0)) [
        | inl no_exec ↦ rw (root, no_exec) refl
        | inr exec ↦
            rw (root, exec, any) (ap (λ r. if is_executable st.mode then pos 0 else r) class)
      ]
    ]
