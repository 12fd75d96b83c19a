-- ===== src/Metadata/Requested.antt =====
-- fs/hepunion/me.c, `set_me_worker`: what a new metadata file is given of a request.
use hepunion.Base.{
  ℕ, zero, suc, ◌<◌, ◌≡◌, refl, ap, sym, ◌∙◌, Bool, true, false, not, ◌&&◌, ◌==◌, if◌then◌else◌,
  arith,
}
use hepunion.Base.{Bool-cases, inl, inr}
use hepunion.Kernel.{Iattr, Kstat}
use hepunion.Names.{is_flag_set}
use hepunion.Metadata.{attr_owner, attr_times, attr_no_mode, with_times, with_owner, new_me_attr}
use Prim.Native.Nat.{bit_and, bit_or}

-- A test that holds below a bound.
below : ℕ → (ℕ → Bool) → Bool
below zero test = true
below (suc n) test = test n && below n test

below-at : (n : ℕ) (test : ℕ → Bool) (k : ℕ) → below n test ≡ true → k < n → test k ≡ true
unfolding below
below-at zero test k h lt = absurd (omega arith)
below-at (suc n) test k h lt = elim (Bool-cases (k == n)) [
  | inl last ↦ let e : k ≡ n = ground arith in rw e (ground arith)
  | inr less ↦ below-at n test k (ground arith) (ground arith)
]

eqb : Bool → Bool → Bool
eqb true b = b
eqb false b = not b

eqb→eq : (a b : Bool) → eqb a b ≡ true → a ≡ b
unfolding eqb
eqb→eq true b h = sym h
eqb→eq false true h = absurd cc
eqb→eq false false h = refl

-- The flags of the request on their way through `set_me_worker`.
abbrev no_mode : ℕ → ℕ
no_mode v = bit_and v attr_no_mode

abbrev timed : ℕ → ℕ
timed v = if is_flag_set (no_mode v) attr_times then no_mode v else bit_or (no_mode v) attr_times

abbrev with_owner_flag : ℕ → ℕ
with_owner_flag v = if is_flag_set v attr_owner then v else bit_or v attr_owner

abbrev owned : ℕ → ℕ
owned v = with_owner_flag (timed v)

flags_test : ℕ → Bool
flags_test v =
    eqb (is_flag_set (no_mode v) attr_times) (is_flag_set v attr_times)
    && (eqb (is_flag_set (timed v) attr_owner) (is_flag_set v attr_owner)
        && (owned v == attr_no_mode))

all_flags : below 64 flags_test ≡ true
unfolding below flags_test eqb is_flag_set
all_flags = refl

-- What the attributes of a request are with the owner and the times that a new file is given: both
-- of a pair that is asked for whole, and both of the file's own otherwise.
abbrev completed : Iattr → Kstat → Iattr
completed attr kst =
    let owner = is_flag_set attr.ia_valid attr_owner in
    let times = is_flag_set attr.ia_valid attr_times in
    record attr {
      ia_valid = attr_no_mode;
      ia_uid = if owner then attr.ia_uid else kst.uid;
      ia_gid = if owner then attr.ia_gid else kst.gid;
      ia_atime = if times then attr.ia_atime else kst.atime;
      ia_mtime = if times then attr.ia_mtime else kst.mtime;
    }

-- For a request whose flags are among the lowest six bits, a new metadata file is always given an
-- owner and times, and no mode: those of the request where it asks for user and group together, or
-- for both times together, and otherwise those of the file. So a request for the user or the group
-- alone, or for one of the times alone, is dropped.
pub new_me_attr-completed :
    (attr : Iattr) (kst : Kstat) → attr.ia_valid < 64 → new_me_attr attr kst ≡ completed attr kst
unfolding new_me_attr with_times with_owner flags_test
new_me_attr-completed attr kst small =
    let all = below-at 64 flags_test attr.ia_valid all_flags small in
    let times =
      eqb→eq (is_flag_set (no_mode attr.ia_valid) attr_times) (is_flag_set attr.ia_valid attr_times)
        (ground arith) in
    let owner =
      eqb→eq (is_flag_set (timed attr.ia_valid) attr_owner) (is_flag_set attr.ia_valid attr_owner)
        (ground arith) in
    let valid : owned attr.ia_valid ≡ attr_no_mode = ground arith in
    let v = attr.ia_valid in
    elim (Bool-cases (is_flag_set v attr_times)) [
      | inl t ↦
          let same_flags : timed v ≡ no_mode v = rw (times, t) refl in
          let own = ap (λ x. is_flag_set x attr_owner) (sym same_flags) ∙ owner in
          elim (Bool-cases (is_flag_set v attr_owner)) [
            | inl o ↦
                let whole =
                  ap (λ x. if x then no_mode v else bit_or (no_mode v) attr_owner) (sym (own ∙ o))
                  ∙ (ap with_owner_flag (sym same_flags) ∙ valid) in
                rw (times ∙ t, own ∙ o, o, t, whole) refl
            | inr o ↦
                let whole =
                  ap (λ x. if x then no_mode v else bit_or (no_mode v) attr_owner) (sym (own ∙ o))
                  ∙ (ap with_owner_flag (sym same_flags) ∙ valid) in
                rw (times ∙ t, own ∙ o, o, t, whole) refl
          ]
      | inr t ↦
          let same_flags : timed v ≡ bit_or (no_mode v) attr_times = rw (times, t) refl in
          let own = ap (λ x. is_flag_set x attr_owner) (sym same_flags) ∙ owner in
          elim (Bool-cases (is_flag_set v attr_owner)) [
            | inl o ↦
                let whole =
                  ap
                    (λ x.
                      if x
                      then bit_or (no_mode v) attr_times
                      else bit_or (bit_or (no_mode v) attr_times) attr_owner)
                    (sym (own ∙ o))
                  ∙ (ap with_owner_flag (sym same_flags) ∙ valid) in
                rw (times ∙ t, own ∙ o, o, t, whole) refl
            | inr o ↦
                let whole =
                  ap
                    (λ x.
                      if x
                      then bit_or (no_mode v) attr_times
                      else bit_or (bit_or (no_mode v) attr_times) attr_owner)
                    (sym (own ∙ o))
                  ∙ (ap with_owner_flag (sym same_flags) ∙ valid) in
                rw (times ∙ t, own ∙ o, o, t, whole) refl
          ]
    ]
