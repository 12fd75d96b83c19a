-- ===== src/Attributes.antt =====
-- fs/hepunion/me.c and wh.c: where the metadata file and the whiteout of a path are, and the
-- attributes of a file with those of its metadata file merged in.
pub mod Tidy
use hepunion.Base.{ℕ, ℤ, pos, is_neg, Option, none, some, List, [], if◌then◌else◌}
use hepunion.Base.Errno.{enomem}
use hepunion.Kernel.{Kernel, Kstat}
use hepunion.Exec.{M, pure, ◌>>=◌, ◌>>◌, with_buffer, on_option}
use hepunion.Lookup.{check_exist, lstat}
use hepunion.Names.{me, wh, valid_modes_mask}
use hepunion.SpecialPath.{Branches, path_to_special}
use Prim.Native.Nat.{bit_and, bit_or}

-- A `struct kstat` on the stack that nothing has been written to. Its fields are read only after
-- a call that fills them has succeeded.
abbrev pub unset : Kstat
unset = record {
  mode = 0;
  uid = 0;
  gid = 0;
  size = 0;
  rdev = 0;
  ino = 0;
  atime = 0;
  mtime = 0;
  ctime = 0;
}

-- `clear_mode_flags(m)`
unfoldable pub clear_mode_flags : ℕ → ℕ
clear_mode_flags m = bit_and m valid_modes_mask

-- `~VALID_MODES_MASK` in the 16 bits of `umode_t`.
abbrev fixed_modes_mask : ℕ
fixed_modes_mask = 0xf000

-- The attributes of a file under those of its metadata file.
unfoldable pub merge : Kstat → Kstat → Kstat
unfolding clear_mode_flags
merge kstme kstbuf = record kstbuf {
  uid = kstme.uid;
  gid = kstme.gid;
  atime = kstme.atime;
  mtime = kstme.mtime;
  ctime = kstme.ctime;
  mode = bit_or (bit_and kstbuf.mode fixed_modes_mask) (clear_mode_flags kstme.mode);
}

module _ ⦃K : Kernel⦄ (b : Branches) where
  -- The status, the path of the metadata file, and its attributes.
  unfoldable pub find_me : List ℕ → List ℕ → Kstat → M (ℤ × List ℕ × Kstat)
  find_me path me_path kstbuf =
      let (err, out) = path_to_special path me b me_path in
      if is_neg err
      then pure (err, out, kstbuf)
      else do answer ← lstat out kstbuf; pure (answer.0, out, answer.1)

  unfoldable pub find_whiteout : List ℕ → List ℕ → M (ℤ × List ℕ)
  find_whiteout path wh_path =
      let (err, out) = path_to_special path wh b wh_path in
      if is_neg err then pure (err, out) else do found ← check_exist out 0; pure (found, out)

  unfoldable pub get_file_attr_worker : List ℕ → List ℕ → Kstat → M (ℤ × Kstat)
  get_file_attr_worker path real_path kstbuf = do
    got ← with_buffer none (do found ← find_me path [] unset; pure (some found))
    on_option got (pure (enomem, kstbuf)) (λ found. do
      answer ← lstat real_path kstbuf
      if is_neg answer.0
          then pure answer
          else pure (pos 0, if is_neg found.0 then answer.1 else merge found.2 answer.1))
