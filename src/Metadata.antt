-- ===== src/Metadata.antt =====
-- fs/hepunion/me.c: the attributes of a file of the union (`get_file_attr`), and their change in its
-- metadata file (`set_me`, `set_me_worker`).
pub mod Balanced
pub mod Requested
use hepunion.Base.{
  ℕ, ℤ, pos, is_neg, Bool, ptr, err_ptr, true, false, not, List, [], ◌==◌, if◌then◌else◌,
}
use hepunion.Base.Errno.{enomem}
use hepunion.Kernel.{Kernel, Kstat, Iattr}
use hepunion.Exec.{M, pure, ◌>>=◌, ◌>>◌, call, as_root, with_buffer, on_ptr}
use hepunion.Names.{is_flag_set, owner_flag, mode_flag, time_flag}
use hepunion.SpecialPath.{Branches}
use hepunion.Lookup.{lstat}
use hepunion.Attributes.{unset, clear_mode_flags, find_me, get_file_attr_worker}
use hepunion.Workers.{dbg_open, dbg_creat, o_rdwr}
use hepunion.Tree.{find_present, find_path_null, attributes_of}
use Prim.Native.Nat.{bit_and, bit_or}

abbrev attr_mode : ℕ
attr_mode = 0x1

-- `ATTR_UID | ATTR_GID`
abbrev pub attr_owner : ℕ
attr_owner = 0x6

-- `ATTR_ATIME | ATTR_MTIME`
abbrev pub attr_times : ℕ
attr_times = 0x30

-- The attributes that a metadata file can carry.
abbrev pub attr_known : ℕ
attr_known = 0x37

-- `~ATTR_MODE` among these.
abbrev pub attr_no_mode : ℕ
attr_no_mode = 0x36

-- The attributes that `set_me` asks for.
unfoldable set_me_attr : Kstat → ℕ → Iattr
unfolding is_flag_set
set_me_attr kstbuf flags =
    let mode = if is_flag_set flags mode_flag then attr_mode else 0 in
    let times = if is_flag_set flags time_flag then attr_times else 0 in
    let owner = if is_flag_set flags owner_flag then attr_owner else 0 in
    attributes_of kstbuf (bit_or (bit_or mode times) owner)

-- `attr->ia_valid &= …` at the start of `set_me_worker`
unfoldable known_attr : Iattr → Iattr
known_attr attr = record attr { ia_valid = bit_and attr.ia_valid attr_known }

-- The mode with which a metadata file is created.
unfoldable me_mode : Iattr → Kstat → ℕ
unfolding clear_mode_flags
me_mode attr kstme =
    clear_mode_flags (if bit_and attr.ia_valid attr_mode == 0 then kstme.mode else attr.ia_mode)

-- The times and then the owner of a new metadata file: those of the file, unless both are given.
unfoldable pub with_times : Kstat → Iattr → Iattr
unfolding is_flag_set
with_times kstme attr = if is_flag_set attr.ia_valid attr_times then attr else record attr {
  ia_atime = kstme.atime;
  ia_mtime = kstme.mtime;
  ia_valid = bit_or attr.ia_valid attr_times;
}

unfoldable pub with_owner : Kstat → Iattr → Iattr
unfolding is_flag_set
with_owner kstme attr = if is_flag_set attr.ia_valid attr_owner then attr else record attr {
  ia_uid = kstme.uid;
  ia_gid = kstme.gid;
  ia_valid = bit_or attr.ia_valid attr_owner;
}

-- What a new metadata file is changed by, behind its creation.
unfoldable pub new_me_attr : Iattr → Kstat → Iattr
unfolding with_times with_owner
new_me_attr attr kstme =
    with_owner kstme
      (with_times kstme (record attr { ia_valid = bit_and attr.ia_valid attr_no_mode }))

module _ ⦃K : Kernel⦄ (b : Branches) where
  unfoldable pub get_file_attr : List ℕ → Kstat → M (ℤ × Kstat)
  unfolding find_present
  get_file_attr path kstbuf =
      with_buffer (enomem, kstbuf)
        (do
          found ← find_present b path [] 0
          if is_neg found.0
              then pure (found.0, kstbuf)
              else get_file_attr_worker b path found.1 kstbuf)

  -- The branch of `set_me_worker` without a metadata file.
  unfoldable pub add_me : List ℕ → List ℕ → List ℕ → Iattr → Kstat → M ℤ
  unfolding find_path_null me_mode new_me_attr
  add_me path real_path me_path attr kst = do
    here ← lstat real_path kst
    if is_neg here.0 then pure here.0 else do
      found ← find_path_null b path
      if is_neg found then pure found else do
        opened ← dbg_creat b me_path (me_mode attr here.1)
        on_ptr opened
            (λ fd. as_root (do
              err ← call (K.notify_change (K.f_dentry fd) (new_me_attr attr here.1))
              call (λ c. K.filp_close fd)
              pure err))
            pure

  -- The branch with one.
  unfoldable pub change_me : List ℕ → Iattr → M ℤ
  change_me me_path attr = do
    opened ← dbg_open b me_path o_rdwr
    on_ptr opened
        (λ fd. do
          err ←
              (if attr.ia_valid == 0
                then pure (pos 0)
                else as_root (call (K.notify_change (K.f_dentry fd) attr)))
          as_root (call (λ c. K.filp_close fd))
          pure err)
        pure

  unfoldable pub set_me_worker : List ℕ → List ℕ → Iattr → M ℤ
  unfolding known_attr add_me change_me
  set_me_worker path real_path attr = with_buffer enomem (do
    found ← find_me b path [] unset
    if is_neg found.0
        then add_me path real_path found.1 (known_attr attr) found.2
        else change_me found.1 (known_attr attr))

  unfoldable pub set_me : List ℕ → List ℕ → Kstat → ℕ → M ℤ
  unfolding set_me_attr set_me_worker
  set_me path real_path kstbuf flags = set_me_worker path real_path (set_me_attr kstbuf flags)
