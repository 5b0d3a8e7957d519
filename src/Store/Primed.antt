-- ===== src/Store/Primed.antt =====
-- One device of internal/store/memory.go: its primary ingress, and the legacy fields that repeat it.
use proxy_mesh.Prelude.{
  ◌+◌, ◌≤◌, ℤ, pos, String, Bool, true, false, none, some, List, [], ◌∷◌, ◌++◌, ◌==◌, ◌≡◌, ◌≢◌,
  refl, string_eq, int_eq, beq_ℤ_iff, if◌then◌else◌, ok, is_empty, length, arith, Bool-cases, inl,
  inr, sym, ok-injective, ◌∙◌, ap,
}
use proxy_mesh.Model.{Device, DeviceIngress, Time, device_ingresses}
use proxy_mesh.Store.{
  write_primary, without_port, removed_flag, promote, rotated_device, extended_device,
  with_ingresses,
}
use proxy_mesh.Store.Counted.{count, extended-ingresses}

-- The port and method of each primary ingress in a list.
unfoldable pub primaries : List DeviceIngress → List (ℤ × String)
primaries [] = []
primaries (i ∷ is) =
    let rest = primaries is in if i.primary then (i.port, i.method) ∷ rest else rest

-- A device has one primary ingress, and its port and method are those of the legacy fields.
abbrev pub IsPrimed : Device → Type 0
IsPrimed d = primaries (device_ingresses d) ≡ (d.ingress_port, d.ingress_method) ∷ []

pub primaries-write_primary :
    (password : String) (is : List DeviceIngress)
    → primaries (write_primary password is) ≡ primaries is
unfolding primaries write_primary
primaries-write_primary password [] = refl
primaries-write_primary password (i ∷ is) = ground (arith, primaries-write_primary password is)

pub primaries-add :
    (i : DeviceIngress) (is : List DeviceIngress)
    → primaries (is ++ record i { primary = false } ∷ []) ≡ primaries is
unfolding primaries
primaries-add i [] = refl
primaries-add i (j ∷ is) = ground (arith, primaries-add i is)

pub without_port-absent :
    (q : ℤ) (is : List DeviceIngress) → count q is ≡ 0 → without_port q is ≡ is
unfolding without_port count
without_port-absent q [] h = refl
without_port-absent q (i ∷ is) h = ground (arith, without_port-absent q is)

pub removed_flag-absent :
    (q : ℤ) (is : List DeviceIngress) → count q is ≡ 0 → removed_flag q is ≡ none
unfolding removed_flag count
removed_flag-absent q [] h = refl
removed_flag-absent q (i ∷ is) h = ground (arith, removed_flag-absent q is)

-- What is left of the primary ingresses, if at most one ingress has the port that is removed.
pub primaries-without :
    (q : ℤ) (flag : Bool) (is : List DeviceIngress)
    → count q is ≤ 1
    → removed_flag q is ≡ some flag
    → length (primaries (without_port q is)) + (if flag then 1 else 0) ≡ length (primaries is)
unfolding primaries without_port removed_flag count
primaries-without q flag [] u e = absurd (cc)
primaries-without q flag (i ∷ is) u e = elim (Bool-cases (i.port == q)) [
  | inl here ↦
      let absent : count q is ≡ 0 = ground arith in
      rw (here, without_port-absent q is absent)
        (ground (arith, e, removed_flag-absent q is absent))
  | inr there ↦ rw there (ground (arith, e, primaries-without q flag is))
]

pub primaries-kept :
    (q : ℤ) (is : List DeviceIngress)
    → count q is ≤ 1
    → removed_flag q is ≡ some false
    → primaries (without_port q is) ≡ primaries is
unfolding primaries without_port removed_flag count
primaries-kept q [] u e = absurd (cc)
primaries-kept q (i ∷ is) u e = elim (Bool-cases (i.port == q)) [
  | inl here ↦
      let absent : count q is ≡ 0 = ground arith in
      rw (here, without_port-absent q is absent)
        (ground (arith, e, removed_flag-absent q is absent))
  | inr there ↦ rw there (ground (arith, e, primaries-kept q is))
]

pub none_left :
    (q : ℤ) (is : List DeviceIngress)
    → count q is ≤ 1
    → removed_flag q is ≡ some true
    → length (primaries is) ≡ 1
    → primaries (without_port q is) ≡ []
none_left q is u e one =
    is_nil (primaries (without_port q is)) (omega (arith, primaries-without q true is u e, one))
  where
    is_nil : {A : Type 0} (xs : List A) → length xs ≡ 0 → xs ≡ []
    is_nil [] h = refl
    is_nil (x ∷ xs) h = absurd (omega (arith, h))

pub with_ingresses-IsPrimed :
    (d : Device) → d.ingresses ≡ [] → d.ingress_port ≢ pos 0 → IsPrimed (with_ingresses d)
unfolding device_ingresses primaries
with_ingresses-IsPrimed d e h = ground (arith, e, h, beq_ℤ_iff d.ingress_port (pos 0))

pub rotated-IsPrimed :
    (password : String) (now : Time) (d : Device)
    → IsPrimed d
    → IsPrimed (rotated_device password now d)
unfolding device_ingresses primaries write_primary
rotated-IsPrimed password now d h = rotated d.ingresses h
  where
    rotated :
        (is : List DeviceIngress)
        → IsPrimed (record d { ingresses = is })
        → IsPrimed (rotated_device password now (record d { ingresses = is }))
    rotated [] h = ground arith
    rotated (i ∷ is) h = primaries-write_primary password (i ∷ is) ∙ h

-- Also if only the primary password of the list is written, and not the legacy one.
pub written-IsPrimed :
    (password : String) (d : Device)
    → IsPrimed d
    → IsPrimed (record d { ingresses = write_primary password d.ingresses })
unfolding device_ingresses primaries write_primary
written-IsPrimed password d h = written d.ingresses h
  where
    written :
        (is : List DeviceIngress)
        → IsPrimed (record d { ingresses = is })
        → IsPrimed (record d { ingresses = write_primary password is })
    written [] h = h
    written (i ∷ is) h = primaries-write_primary password (i ∷ is) ∙ h

pub extended-IsPrimed :
    (i : DeviceIngress) (now : Time) (d : Device) → IsPrimed d → IsPrimed (extended_device i now d)
extended-IsPrimed i now d h = rw extended-ingresses (rw (primaries-add i (device_ingresses d)) h)

pub kept-IsPrimed :
    (d d' : Device) (now : Time) (out : List DeviceIngress)
    → is_empty out ≡ false
    → primaries out ≡ (d.ingress_port, d.ingress_method) ∷ []
    → promote false d out ≡ ok d'
    → IsPrimed (record d' { updated_at = now })
unfolding promote device_ingresses
kept-IsPrimed d d' now [] left h p = absurd (cc)
kept-IsPrimed d d' now (i ∷ is) left h p = rw (sym (ok-injective p)) h

pub promoted-IsPrimed :
    (d d' : Device) (now : Time) (out : List DeviceIngress)
    → is_empty out ≡ false
    → primaries out ≡ []
    → promote true d out ≡ ok d'
    → IsPrimed (record d' { updated_at = now })
unfolding promote device_ingresses primaries
promoted-IsPrimed d d' now [] left h p = absurd (cc)
promoted-IsPrimed d d' now (i ∷ is) left h p = rw (sym (ok-injective p)) (ground (arith, h))

pub promote-IsPrimed :
    (q : ℤ) (flag : Bool) (now : Time) (d d' : Device)
    → IsPrimed d
    → count q (device_ingresses d) ≤ 1
    → removed_flag q (device_ingresses d) ≡ some flag
    → is_empty (without_port q (device_ingresses d)) ≡ false
    → promote flag d (without_port q (device_ingresses d)) ≡ ok d'
    → IsPrimed (record d' { updated_at = now })
promote-IsPrimed q false now d d' h u e left p =
    kept-IsPrimed d d' now (without_port q (device_ingresses d)) left
      (primaries-kept q (device_ingresses d) u e ∙ h) p
promote-IsPrimed q true now d d' h u e left p =
    promoted-IsPrimed d d' now (without_port q (device_ingresses d)) left
      (none_left q (device_ingresses d) u e (ap length h)) p
