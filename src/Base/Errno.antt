-- ===== src/Base/Errno.antt =====
-- The error codes of the kernel that the driver returns itself.
use hepunion.Base.Int.{ℤ, negsuc}

abbrev pub enoent : ℤ
enoent = negsuc 1

abbrev pub ebadf : ℤ
ebadf = negsuc 8

abbrev pub enomem : ℤ
enomem = negsuc 11

abbrev pub eacces : ℤ
eacces = negsuc 12

abbrev pub eexist : ℤ
eexist = negsuc 16

abbrev pub exdev : ℤ
exdev = negsuc 17

abbrev pub einval : ℤ
einval = negsuc 21

abbrev pub enametoolong : ℤ
enametoolong = negsuc 35

abbrev pub enotempty : ℤ
enotempty = negsuc 38
