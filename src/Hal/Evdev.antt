-- ===== src/Hal/Evdev.antt =====
-- app/hal/mpu6050_hal.c: opening and closing the event device of the MPU6050.
use edge_omni.Common.{ℕ, ◌≡◌, refl, Bool, true, false, Option, none, some, List, [], ◌∷◌, ◌++◌}
use edge_omni.Common.Int.{ℤ, pos, negsuc, ◌+ℤ◌, ◌-ℤ◌}
use edge_omni.Hal.Mpu.{Private, fresh}
use edge_omni.Hal.Sht.{minus_enomem, minus_einval, minus_enotsup}

-- ENODEV of Linux, negated.
abbrev pub minus_enodev : ℤ
minus_enodev = negsuc 18

-- The calls that take or give back something: files by their descriptors, the device of libevdev,
-- and memory.
pub data Call : Type 0 where
  opened closed : ℕ → Call
  evdev_new evdev_free : Call
  allocated freed : Call

-- `mpu6050_hal_t` behind a handle: the descriptor, and the cache.
pub record Handle : Type 0 where
  pub fd : ℕ
  pub private : Private

-- What `open` and `libevdev_set_fd` return, and whether the device of libevdev and the memory are
-- there, is given. The result, the handle that is handed out, and the calls made.
unfoldable pub mpu6050_hal_open : ℤ → Bool → ℤ → Bool → ℤ × Option Handle × List Call
mpu6050_hal_open (negsuc e) evdev set_fd memory = (negsuc e, none, [])
mpu6050_hal_open (pos fd) false set_fd memory = (minus_enomem, none, opened fd ∷ closed fd ∷ [])
mpu6050_hal_open (pos fd) true (negsuc e) memory =
    (minus_enodev, none, opened fd ∷ evdev_new ∷ evdev_free ∷ closed fd ∷ [])
mpu6050_hal_open (pos fd) true (pos n) false =
    (minus_enomem, none, opened fd ∷ evdev_new ∷ evdev_free ∷ closed fd ∷ [])
mpu6050_hal_open (pos fd) true (pos n) true =
    (pos 0, some (record { fd = fd; private = fresh }), opened fd ∷ evdev_new ∷ allocated ∷ [])

unfoldable pub mpu6050_hal_ioctl : Option Handle → ℤ
mpu6050_hal_ioctl handle = minus_enotsup

-- `none` is a handle that is null.
unfoldable pub mpu6050_hal_close : Option Handle → ℤ × Option Handle × List Call
mpu6050_hal_close none = (minus_einval, none, [])
mpu6050_hal_close (some h) = (pos 0, none, evdev_free ∷ closed h.fd ∷ freed ∷ [])

-- Files, devices and blocks of memory that a list of calls has taken, less those given back.
abbrev pub files : List Call → ℤ
files [] = pos 0
files (opened _ ∷ cs) = files cs +ℤ pos 1
files (closed _ ∷ cs) = files cs -ℤ pos 1
files (_ ∷ cs) = files cs

abbrev pub devices : List Call → ℤ
devices [] = pos 0
devices (evdev_new ∷ cs) = devices cs +ℤ pos 1
devices (evdev_free ∷ cs) = devices cs -ℤ pos 1
devices (_ ∷ cs) = devices cs

abbrev pub blocks : List Call → ℤ
blocks [] = pos 0
blocks (allocated ∷ cs) = blocks cs +ℤ pos 1
blocks (freed ∷ cs) = blocks cs -ℤ pos 1
blocks (_ ∷ cs) = blocks cs

-- Whatever step of mpu6050_hal_open fails, and when none does, the call and mpu6050_hal_close of
-- what it has handed out give back every file, device and block of memory.
pub mpu6050_open_close :
    (fd set_fd : ℤ) (evdev memory : Bool)
    → let (ret, handle, calls) = mpu6050_hal_open fd evdev set_fd memory in
      let (ret', handle', calls') = mpu6050_hal_close handle in
      (files (calls ++ calls') ≡ pos 0)
      × (devices (calls ++ calls') ≡ pos 0)
      × (blocks (calls ++ calls') ≡ pos 0)
      × (handle' ≡ none)
unfolding mpu6050_hal_open mpu6050_hal_close ◌+ℤ◌ ◌-ℤ◌
mpu6050_open_close (negsuc e) set_fd evdev memory = (refl, refl, refl, refl)
mpu6050_open_close (pos fd) set_fd false memory = (refl, refl, refl, refl)
mpu6050_open_close (pos fd) (negsuc e) true memory = (refl, refl, refl, refl)
mpu6050_open_close (pos fd) (pos n) true false = (refl, refl, refl, refl)
mpu6050_open_close (pos fd) (pos n) true true = (refl, refl, refl, refl)
