-- ===== src/Changes/Reverse.antt =====
-- `cancel` of blivet/deviceaction.py takes back what `apply` did to the device.
use blivet.Prelude.{
  ℕ, suc, ◌<◌, ◌≡◌, refl, sym, ap, Bool, true, false, ◌&&◌, ◌||◌, not, Option, none, some, ok,
  raise_if, >>=-eq-ok, >>-eq-ok, ok-injective, value_error, ltb, ◌==◌, arith, lt→ltb, ℤ, pos,
  negsuc, ◌+ℤ◌, int_laws,
}
use blivet.Changes.Device.{
  Format, Storage, is_set, format_min_size, resizable, min_size, max_size, set_target_size,
  check_format, set_format, clear_format, blank_format,
}
use blivet.Changes.Action.{
  Change, resizes_device, creates_format, destroys_format, Pending, init_resize_device,
  init_create_format, init_destroy_format, check_dependencies, add_skip, apply_change,
  cancel_change, apply, cancel,
}

-- Only the target size changes.
set_target_size-ok :
    (d : Storage) (n : ℕ) {d' : Storage}
    → set_target_size d n ≡ ok d'
    → d' ≡ record d { target_size = n }
unfolding set_target_size
set_target_size-ok d n h =
    let h1 = >>-eq-ok (raise_if (is_set (max_size d) && ltb (max_size d) n) value_error) _ h in
    let h2 = >>-eq-ok (raise_if (is_set (min_size d) && ltb n (min_size d)) value_error) _ h1 in
    sym (ok-injective (>>-eq-ok (raise_if (not (d.align_target_size n == n)) value_error) _ h2))

-- A size that a device may have does not depend on the size that it is to have.
set_target_size-again :
    (d : Storage) (m n : ℕ)
    → set_target_size d n ≡ ok (record d { target_size = n })
    → set_target_size (record d { target_size = m }) n ≡ ok (record d { target_size = n })
unfolding set_target_size
set_target_size-again d m n h = h

abbrev action : Change → Bool → Storage → Pending
action c applied d = record { change = c; applied = applied; device = d }

apply-device :
    (c : Change) (d : Storage) {a : Pending}
    → apply (action c false d) ≡ ok a
    → (d' : Storage) × (apply_change c d ≡ ok d') × (a ≡ action c true d')
unfolding apply
apply-device c d h =
    let (d', changed, e) = >>=-eq-ok (apply_change c d) _ h in (d', changed, sym (ok-injective e))

cancel-device :
    (c : Change) (d : Storage) {d' : Storage}
    → cancel_change c d ≡ ok d'
    → cancel (action c true d) ≡ ok (action c false d')
unfolding cancel
cancel-device c d h = rw h refl

init_resize_device-resizes :
    (d : Storage) (n : ℕ) {c : Change}
    → init_resize_device d n ≡ ok c
    → 0 < d.target_size
    → c ≡ resizes_device d.target_size n
unfolding init_resize_device
init_resize_device-resizes d n h pending =
    let h1 = >>-eq-ok (raise_if (not (resizable d)) value_error) _ h in
    let h2 = >>-eq-ok (raise_if (d.current_size == n) value_error) _ h1 in
    let h3 = >>-eq-ok (raise_if (ltb n (min_size d)) value_error) _ h2 in
    let h4 = >>-eq-ok (raise_if (is_set (max_size d) && ltb (max_size d) n) value_error) _ h3 in
    let made = >>-eq-ok (check_dependencies d) _ h4 in
    sym (ok-injective (rw (lt→ltb 0 d.target_size pending) at made))

-- An action that resizes a device, where the device has a target size that its setter accepts, and
-- where `apply` returns: `cancel` then returns, and gives back the device as it was before.
pub cancel-apply_resize :
    (d : Storage) (n : ℕ) {c : Change} {a : Pending}
    → init_resize_device d n ≡ ok c
    → 0 < d.target_size
    → set_target_size d d.target_size ≡ ok d
    → apply (record { change = c; applied = false; device = d }) ≡ ok a
    → cancel a ≡ ok (record { change = c; applied = false; device = d })
unfolding apply_change cancel_change
cancel-apply_resize d n {c} made pending accepts applied =
    let (d', changed, e) = apply-device c d applied in
    let known = init_resize_device-resizes d n made pending in
    let resized : set_target_size d n ≡ ok d' = rw known at changed in
    let back : set_target_size d' d.target_size ≡ ok d =
      rw (set_target_size-ok d n resized) (set_target_size-again d n d.target_size accepts) in
    rw (e, known) (cancel-device (resizes_device d.target_size n) d' back)

-- A format that a device of any size may have: it exists, or has no limits.
abbrev pub is_unlimited : Format → Bool
is_unlimited f = f.exists || (not (is_set f.max_size) && not (is_set (format_min_size f)))

check_format-unlimited :
    (d : Storage) (f : Format) → is_unlimited f ≡ true → check_format d f ≡ ok d
unfolding check_format
check_format-unlimited d f h = ground (arith, h)

set_format-unlimited :
    (d : Storage) (f : Format)
    → is_unlimited f ≡ true
    → (d.format.id == f.id) ≡ false
    → set_format d f ≡ ok (record d { format = f })
unfolding set_format
set_format-unlimited d f h other = rw (check_format-unlimited d f h, other) refl

add_skip-back : (d : Storage) → add_skip (negsuc 0) (add_skip (pos 1) d) ≡ d
add_skip-back d = ap (λ n. record d { ignore_skip_activation = n }) (go d.ignore_skip_activation)
  where
    go :
        (o : Option ℤ)
        → elim (elim o as (λ _. Option ℤ) [ some n ↦ some (n +ℤ pos 1) | none ↦ none ])
            as (λ _. Option ℤ) [ some n ↦ some (n +ℤ negsuc 0) | none ↦ none ]
          ≡ o
    go none = refl
    go (some n) = ap some (grind int_laws)

-- What is left of a device whose format is destroyed.
abbrev unformatted : Storage → Storage
unformatted d = record d { format = blank_format d.next_id d.exists; next_id = suc d.next_id }

clear_format-unformatted :
    (d : Storage) → d.format.id < d.next_id → clear_format d ≡ ok (unformatted d)
unfolding clear_format
clear_format-unformatted d new =
    set_format-unlimited (record d { next_id = suc d.next_id }) (blank_format d.next_id d.exists)
      (ground arith) (ground arith)

-- An action that destroys a format that exists or has no limits, of a device whose format is older than
-- any new one: `apply` returns, `cancel` then returns, and gives back the device as it was before, less
-- the id that the blank format has taken.
pub cancel-apply_destroy_format :
    (d : Storage) {c : Change}
    → init_destroy_format d ≡ ok c
    → is_unlimited d.format ≡ true
    → d.format.id < d.next_id
    → (a : Pending) × (apply (record { change = c; applied = false; device = d }) ≡ ok a)
      × (cancel a
          ≡ ok (record {
            change = c;
            applied = false;
            device = record d { next_id = suc d.next_id };
          }))
unfolding init_destroy_format apply cancel apply_change cancel_change
cancel-apply_destroy_format d {c} made free new =
    let known : destroys_format d.format ≡ c =
      ok-injective (>>-eq-ok (raise_if d.format_immutable value_error) _ made) in
    let d1 = add_skip (pos 1) (unformatted d) in
    let back : set_format d1 d.format ≡ ok (record d1 { format = d.format }) =
      set_format-unlimited d1 d.format free (ground arith) in
    rw (← known) (
      action (destroys_format d.format) true d1,
      rw (clear_format-unformatted d new) refl,
      rw back (
          ap (λ x. ok (action (destroys_format d.format) false x))
            (add_skip-back (record d { next_id = suc d.next_id }))),
    )

-- An action that creates a given format, where the device has the size for it, and where the format
-- that it has exists or has no limits: `apply` returns, `cancel` then returns, and gives back the device
-- as it was before.
pub cancel-apply_create_format :
    (d : Storage) (fmt : Format) (id : ℕ) {c : Change}
    → init_create_format d (some fmt) id ≡ ok c
    → check_format d fmt ≡ ok d
    → is_unlimited d.format ≡ true
    → (d.format.id == fmt.id) ≡ false
    → (a : Pending) × (apply (record { change = c; applied = false; device = d }) ≡ ok a)
      × (cancel a ≡ ok (record { change = c; applied = false; device = d }))
unfolding init_create_format apply cancel apply_change cancel_change set_format
cancel-apply_create_format d fmt id {c} made fits free other =
    let h1 = >>-eq-ok (raise_if d.format_immutable value_error) _ made in
    let h2 = >>-eq-ok (raise_if fmt.exists value_error) _ h1 in
    let known : creates_format d.format fmt ≡ c =
      ok-injective (>>-eq-ok (raise_if (not fmt.formattable) value_error) _ h2) in
    rw (← known) (
      action (creates_format d.format fmt) true (record d { format = fmt }),
      rw (fits, other) refl,
      rw (check_format-unlimited (record d { format = fmt }) d.format free) (ground (arith, other)),
    )

-- A device that does not exist and can grow, and is smaller than the least size of a format that has no
-- largest: `apply` of an action that creates the format makes the device larger, and `cancel` gives it
-- back its format, without limits of its own, but not its size.
pub cancel-apply_grown :
    (d : Storage) (fmt : Format) (id : ℕ) {c : Change}
    → init_create_format d (some fmt) id ≡ ok c
    → d.exists ≡ false
    → d.growable ≡ true
    → d.format.exists ≡ false
    → d.format.max_size ≡ 0
    → format_min_size d.format ≡ 0
    → fmt.max_size ≡ 0
    → d.own_size < format_min_size fmt
    → (d.format.id == fmt.id) ≡ false
    → (a : Pending) × (apply (record { change = c; applied = false; device = d }) ≡ ok a)
      × (cancel a
          ≡ ok (record {
            change = c;
            applied = false;
            device = record d { own_size = format_min_size fmt };
          }))
unfolding init_create_format apply cancel apply_change cancel_change set_format
cancel-apply_grown d fmt id {c} made new grows blank no_max no_min unbounded small other =
    let h1 = >>-eq-ok (raise_if d.format_immutable value_error) _ made in
    let h2 = >>-eq-ok (raise_if fmt.exists value_error) _ h1 in
    let known : creates_format d.format fmt ≡ c =
      ok-injective (>>-eq-ok (raise_if (not fmt.formattable) value_error) _ h2) in
    let grown = record d { own_size = format_min_size fmt } in
    let fresh : fmt.exists ≡ false = ground (arith, h1) in
    let larger : check_format d fmt ≡ ok grown =
      unfold check_format in
      rw (fresh, unbounded, new, lt→ltb d.own_size (format_min_size fmt) small, grows)
        (ground (arith, no_max, no_min, small)) in
    rw (← known) (
      action (creates_format d.format fmt) true (record grown { format = fmt }),
      rw (larger, other) refl,
      rw
          (check_format-unlimited (record grown { format = fmt }) d.format
            (ground (arith, no_max, no_min, blank)))
          (ground (arith, other)),
    )
