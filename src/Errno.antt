-- ===== src/Errno.antt =====
-- include/minios/abi/errno.h: the int32_t results. A failure is the negated number.
use mini_orange_os.Prelude.{◌==◌, ℕ, ◌-◌, Bool, true, false}
use mini_orange_os.Prelude.Int.{ℤ, pos, negsuc}

-- -number, for a number above 0.
abbrev pub minus : ℕ → ℤ
minus number = negsuc (number - 1)

abbrev pub enoent : ℤ
enoent = minus 2

abbrev pub eio : ℤ
eio = minus 5

abbrev pub enoexec : ℤ
enoexec = minus 8

abbrev pub ebadf : ℤ
ebadf = minus 9

abbrev pub echild : ℤ
echild = minus 10

abbrev pub eagain : ℤ
eagain = minus 11

abbrev pub enomem : ℤ
enomem = minus 12

abbrev pub efault : ℤ
efault = minus 14

abbrev pub ebusy : ℤ
ebusy = minus 16

abbrev pub eexist : ℤ
eexist = minus 17

abbrev pub enotdir : ℤ
enotdir = minus 20

abbrev pub eisdir : ℤ
eisdir = minus 21

abbrev pub einval : ℤ
einval = minus 22

abbrev pub enfile : ℤ
enfile = minus 23

abbrev pub emfile : ℤ
emfile = minus 24

-- `result < 0`
abbrev pub is_error : ℤ → Bool
is_error (pos n) = false
is_error (negsuc n) = true

-- `result == -MINIOS_ENOENT`
abbrev pub is_enoent : ℤ → Bool
is_enoent (pos n) = false
is_enoent (negsuc n) = n == 1

abbrev pub enospc : ℤ
enospc = minus 28

abbrev pub enotempty : ℤ
enotempty = minus 39
