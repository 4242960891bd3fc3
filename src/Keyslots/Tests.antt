-- ===== src/Keyslots/Tests.antt =====
-- Calls on a list of keyslot contexts, as blivet/devicelibs/crypto.py runs them.
use blivet.Prelude.{
  ◌≡◌, refl, none, some, ok, err, attribute_error, pos, List, [], ◌∷◌, if◌then◌else◌, any,
}
use blivet.Keyslots.Contexts.{
  KeyslotContext, is_keyfile, sort_contexts, has_type, get_context, remove_keyfile, Call,
  add_phrase, add_file, remove_file, calls, call, add_context, add_passphrase, add_keyfile,
}
use blivet.Keyslots.Order.{IsHighest, get_context-IsHighest}
use blivet.Keyslots.Keyfiles.{remove_keyfile-raises}

abbrev phrase : KeyslotContext
phrase = record {
  ctype = "passphrase";
  passphrase = some "secret";
  key_file = none;
  priority = pos 1;
}

abbrev file : KeyslotContext
file = record { ctype = "keyfile"; passphrase = none; key_file = some "/key"; priority = pos 0 }

-- An empty passphrase is refused, one without a priority has priority 1, and the key file stays.
abbrev session : List Call
session =
    add_file (some "/key") (pos 0)
    ∷ add_phrase (some "") (pos 7)
    ∷ add_phrase (some "secret") (pos 0)
    ∷ remove_file (some "/key")
    ∷ []

after_session : calls [] session ≡ phrase ∷ file ∷ []
unfolding calls call add_context add_passphrase add_keyfile remove_keyfile
after_session = refl

get_context-IsHighest_example :
    IsHighest
      (has_type (some "keyfile"))
      (calls [] session)
      (get_context (calls [] session) (some "keyfile"))
get_context-IsHighest_example = get_context-IsHighest session (some "keyfile")

remove_keyfile-raises_example : remove_keyfile (phrase ∷ file ∷ []) (some "/key") ≡ (
    if any is_keyfile (phrase ∷ file ∷ [])
    then err attribute_error
    else ok (sort_contexts (phrase ∷ file ∷ [])))
remove_keyfile-raises_example = remove_keyfile-raises (phrase ∷ file ∷ []) (some "/key")
