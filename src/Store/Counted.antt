-- ===== src/Store/Counted.antt =====
-- How many ingresses have a port, and what the steps of internal/store/memory.go do to the number.
use proxy_mesh.Prelude.{
  ℕ, ◌+◌, ◌≤◌, ◌<◌, ℤ, String, Bool, true, false, Option, none, some, List, [], ◌∷◌, ◌++◌, ◌==◌,
  ◌≡◌, refl, string_eq, int_eq, if◌then◌else◌, ok, any, is_empty, length, arith, sym, ok-injective,
}
use proxy_mesh.Prelude.Map.{Map, lookup, insert}
use proxy_mesh.Model.{Device, DeviceIngress, Time, device_ingresses}
use proxy_mesh.Store.{
  Memory, port_taken, write_primary, without_port, promote, rotated_device, extended_device,
}

-- The number of ingresses with the port, in a list, and over all devices.
unfoldable pub count : ℤ → List DeviceIngress → ℕ
count p [] = 0
count p (i ∷ is) = (if i.port == p then 1 else 0) + count p is

unfoldable pub count_all : ℤ → Map String Device → ℕ
unfolding count
count_all p [] = 0
count_all p ((id, d) ∷ m) = count p (device_ingresses d) + count_all p m

abbrev pub count_in : ℤ → Option Device → ℕ
count_in p none = 0
count_in p (some d) = count p (device_ingresses d)

pub count_all-insert :
    (p : ℤ) (id : String) (d : Device) (m : Map String Device)
    → count_all p (insert id d m) + count_in p (lookup id m)
      ≡ count_all p m + count p (device_ingresses d)
unfolding count_all insert lookup
count_all-insert p id d [] = omega arith
count_all-insert p id d ((j, e) ∷ m) = ground (arith, count_all-insert p id d m)

pub count_untaken :
    (p : ℤ) (is : List DeviceIngress) → any (λ i. i.port == p) is ≡ false → count p is ≡ 0
unfolding count
count_untaken p [] h = refl
count_untaken p (i ∷ is) h = ground (arith, count_untaken p is)

pub count_all-untaken : (p : ℤ) (m : Map String Device) → port_taken p m ≡ false → count_all p m ≡ 0
unfolding count_all
count_all-untaken p [] h = refl
count_all-untaken p ((id, d) ∷ m) h =
    ground (arith, count_untaken p (device_ingresses d), count_all-untaken p m)

pub count-append :
    (p : ℤ) (is js : List DeviceIngress) → count p (is ++ js) ≡ count p is + count p js
unfolding count
count-append p [] js = omega arith
count-append p (i ∷ is) js = omega (arith, count-append p is js)

pub count-write_primary :
    (p : ℤ) (password : String) (is : List DeviceIngress)
    → count p (write_primary password is) ≡ count p is
unfolding count write_primary
count-write_primary p password [] = refl
count-write_primary p password (i ∷ is) = ground (arith, count-write_primary p password is)

pub count-without_port-le :
    (p q : ℤ) (is : List DeviceIngress) → count p (without_port q is) ≤ count p is
unfolding count without_port
count-without_port-le p q [] = omega arith
count-without_port-le p q (i ∷ is) = ground (arith, count-without_port-le p q is)

pub count-rotated :
    (p : ℤ) (password : String) (now : Time) (d : Device)
    → count p (device_ingresses (rotated_device password now d)) ≡ count p (device_ingresses d)
unfolding device_ingresses count write_primary
count-rotated p password now d = rotated d.ingresses
  where
    rotated :
        (is : List DeviceIngress)
        → count p (
            device_ingresses
              (record d { ingress_password = password; ingresses = write_primary password is }))
          ≡ count p (device_ingresses (record d { ingresses = is }))
    rotated [] = ground arith
    rotated (i ∷ is) = count-write_primary p password (i ∷ is)

pub count-written :
    (p : ℤ) (password : String) (d : Device)
    → count p (device_ingresses (record d { ingresses = write_primary password d.ingresses }))
      ≡ count p (device_ingresses d)
unfolding device_ingresses count write_primary
count-written p password d = written d.ingresses
  where
    written :
        (is : List DeviceIngress)
        → count p (device_ingresses (record d { ingresses = write_primary password is }))
          ≡ count p (device_ingresses (record d { ingresses = is }))
    written [] = refl
    written (i ∷ is) = count-write_primary p password (i ∷ is)

pub listed :
    (d : Device) (now : Time) (i : DeviceIngress) (is : List DeviceIngress)
    → device_ingresses (record d { ingresses = is ++ i ∷ []; updated_at = now }) ≡ is ++ i ∷ []
unfolding device_ingresses
listed d now i [] = refl
listed d now i (j ∷ is) = refl

pub extended-ingresses :
    (i : DeviceIngress) (now : Time) (d : Device)
    → device_ingresses (extended_device i now d)
      ≡ device_ingresses d ++ record i { primary = false } ∷ []
extended-ingresses i now d = listed d now (record i { primary = false }) (device_ingresses d)

pub count-extended :
    (p : ℤ) (i : DeviceIngress) (now : Time) (d : Device)
    → count p (device_ingresses (extended_device i now d))
      ≡ count p (device_ingresses d) + (if i.port == p then 1 else 0)
unfolding count
count-extended p i now d =
    rw extended-ingresses
      (omega (arith, count-append p (device_ingresses d) (record i { primary = false } ∷ [])))

-- With two ingresses or more, of which one at most has the port, some are left.
pub without_port-nonempty :
    (q : ℤ) (is : List DeviceIngress)
    → 1 < length is
    → count q is ≤ 1
    → is_empty (without_port q is) ≡ false
unfolding count without_port
without_port-nonempty q [] h u = absurd (omega arith)
without_port-nonempty q (i ∷ []) h u = absurd (omega arith)
without_port-nonempty q (i ∷ j ∷ is) h u = ground arith

-- The device that is left has those that are left; the first may have become primary.
pub count-promote :
    (flag : Bool) (d d' : Device) (now : Time) (out : List DeviceIngress) (p : ℤ)
    → is_empty out ≡ false
    → promote flag d out ≡ ok d'
    → count p (device_ingresses (record d' { updated_at = now })) ≡ count p out
unfolding promote device_ingresses count
count-promote flag d d' now [] p h e = absurd (cc)
count-promote true d d' now (i ∷ is) p h e = rw (sym (ok-injective e)) refl
count-promote false d d' now (i ∷ is) p h e = rw (sym (ok-injective e)) refl

pub count_in-of :
    {F : Type 0} (p : ℤ) (id : String) (d : Device) (m : Memory F)
    → lookup id m.devices ≡ some d
    → count_in p (lookup id m.devices) ≡ count p (device_ingresses d)
count_in-of p id d m e = rw e refl

pub count-le-all :
    (p : ℤ) (id : String) (d : Device) (m : Map String Device)
    → lookup id m ≡ some d
    → count p (device_ingresses d) ≤ count_all p m
unfolding lookup count_all
count-le-all p id d [] e = absurd (cc)
count-le-all p id d ((j, x) ∷ m) e = ground (arith, count-le-all p id d m)
