-- ===== src/Keyslots/Keyfiles.antt =====
-- The removal of key files from the list of keyslot contexts of blivet/devicelibs/crypto.py.
use blivet.Prelude.{
  ◌≡◌, refl, Option, String, ok, err, attribute_error, List, [], ◌∷◌, if◌then◌else◌, any, inl, inr,
  Bool-cases,
}
use blivet.Keyslots.Contexts.{
  KeyslotContext, is_keyfile, sort_contexts, other_keyfiles, remove_keyfile,
}

other_keyfiles-all :
    (key_file : Option String) (cs : List KeyslotContext)
    → other_keyfiles key_file cs ≡ (if any is_keyfile cs then err attribute_error else ok cs)
other_keyfiles-all key_file [] = refl
other_keyfiles-all key_file (c ∷ cs) = elim (Bool-cases (is_keyfile c)) [
  | inl file ↦ rw file refl
  | inr other ↦ elim (Bool-cases (any is_keyfile cs)) [
    | inl later ↦ rw (other, other_keyfiles-all key_file cs, later) refl
    | inr never ↦ rw (other, other_keyfiles-all key_file cs, never) refl
  ]
]

-- `remove_keyfile` never removes a key file: where the list has a context with one, whichever is given,
-- it raises AttributeError, and otherwise it only sorts the list.
pub remove_keyfile-raises :
    (cs : List KeyslotContext) (key_file : Option String)
    → remove_keyfile cs key_file
      ≡ (if any is_keyfile cs then err attribute_error else ok (sort_contexts cs))
unfolding remove_keyfile
remove_keyfile-raises cs key_file = elim (Bool-cases (any is_keyfile cs)) [
  | inl some_file ↦ rw (other_keyfiles-all key_file cs, some_file) refl
  | inr no_file ↦ rw (other_keyfiles-all key_file cs, no_file) refl
]
