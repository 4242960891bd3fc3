-- ===== src/Keyslots/Contexts.antt =====
-- `KeyslotContext` and `KeyslotContextList` of blivet/devicelibs/crypto.py.
use blivet.Prelude.{
  Bool, true, false, ◌&&◌, ◌||◌, not, Option, none, some, String, str_eq, Result, ok, err, ◌>>=◌,
  value_error, attribute_error, ℤ, pos, leb_ℤ, eqb_ℤ, List, [], ◌∷◌, ◌++◌, if◌then◌else◌, any, keep,
}
use blivet.DeviceTree.Registry.{is_given, same_text}

pub record KeyslotContext : Type 0 where
  pub ctype : String
  pub passphrase : Option String
  pub key_file : Option String
  pub priority : ℤ

-- `KeyslotContext.__init__`: an empty string counts as not given.
abbrev pub init_context : Option String → Option String → ℤ → Result KeyslotContext
init_context passphrase key_file priority =
    if is_given passphrase
    then ok (record {
      ctype = "passphrase";
      passphrase = passphrase;
      key_file = none;
      priority = if eqb_ℤ priority (pos 0) then pos 1 else priority;
    })
    else if is_given key_file
    then ok
        (record { ctype = "keyfile"; passphrase = none; key_file = key_file; priority = priority })
    else err value_error

abbrev pub is_passphrase : KeyslotContext → Bool
is_passphrase c = str_eq c.ctype "passphrase"

abbrev pub is_keyfile : KeyslotContext → Bool
is_keyfile c = str_eq c.ctype "keyfile"

-- `KeyslotContext.valid`; `os.access` is a parameter.
abbrev pub context_valid : (Option String → Bool) → KeyslotContext → Bool
context_valid readable c =
    if is_passphrase c then true else if is_keyfile c then readable c.key_file else false

-- `__sort`: by priority, the highest first; equal ones keep their order.
abbrev pub insert_context : KeyslotContext → List KeyslotContext → List KeyslotContext
insert_context c [] = c ∷ []
insert_context c (d ∷ ds) =
    if leb_ℤ d.priority c.priority then c ∷ d ∷ ds else d ∷ insert_context c ds

abbrev pub sort_contexts : List KeyslotContext → List KeyslotContext
sort_contexts [] = []
sort_contexts (c ∷ cs) = insert_context c (sort_contexts cs)

-- `KeyslotContextList.valid`
abbrev pub list_valid : (Option String → Bool) → List KeyslotContext → Bool
list_valid readable cs = any (context_valid readable) cs

-- The contexts of a type, or of any type where none is given.
abbrev pub has_type : Option String → KeyslotContext → Bool
has_type ctype c = not (is_given ctype) || same_text (some c.ctype) ctype

abbrev pub first_context : List KeyslotContext → Option KeyslotContext
first_context [] = none
first_context (c ∷ cs) = some c

unfoldable pub get_context : List KeyslotContext → Option String → Option KeyslotContext
get_context cs ctype =
    if is_given ctype
    then first_context (keep (λ (c : KeyslotContext). same_text (some c.ctype) ctype) cs)
    else first_context cs

-- `get_contexts`: `None` where there is none.
abbrev pub some_contexts : List KeyslotContext → Option (List KeyslotContext)
some_contexts [] = none
some_contexts (c ∷ cs) = some (c ∷ cs)

unfoldable pub get_contexts : List KeyslotContext → Option String → Option (List KeyslotContext)
get_contexts cs ctype =
    if is_given ctype
    then some_contexts (keep (λ (c : KeyslotContext). same_text (some c.ctype) ctype) cs)
    else some_contexts cs

-- The loops remove every context that matches, each as often as it stands in the list.
unfoldable pub clear_contexts : List KeyslotContext → Option String → List KeyslotContext
clear_contexts cs none = []
clear_contexts cs (some ctype) =
    sort_contexts (keep (λ (c : KeyslotContext). not (str_eq c.ctype ctype)) cs)

unfoldable pub add_context : List KeyslotContext → KeyslotContext → List KeyslotContext
add_context cs c = sort_contexts (cs ++ c ∷ [])

unfoldable pub add_passphrase :
    List KeyslotContext → Option String → ℤ → Result (List KeyslotContext)
unfolding add_context
add_passphrase cs passphrase priority = do
  c ← init_context passphrase none priority
  ok (add_context cs c)

unfoldable pub add_keyfile : List KeyslotContext → Option String → ℤ → Result (List KeyslotContext)
unfolding add_context
add_keyfile cs key_file priority = do c ← init_context none key_file priority; ok (add_context cs c)

unfoldable pub remove_passphrase : List KeyslotContext → Option String → List KeyslotContext
remove_passphrase cs passphrase =
    sort_contexts
      (keep (λ (c : KeyslotContext). not (is_passphrase c && same_text c.passphrase passphrase)) cs)

-- The loop of `remove_keyfile` reads `_keyfile`, an attribute that no context has: that of a context with
-- a key file is `_key_file`.
abbrev pub read_keyfile : KeyslotContext → Result (Option String)
read_keyfile c = err attribute_error

-- The test of the loop, `cxt.is_keyfile and cxt._keyfile == keyfile`.
abbrev pub matches_keyfile : Option String → KeyslotContext → Result Bool
matches_keyfile key_file c =
    if is_keyfile c then (do own ← read_keyfile c; ok (same_text own key_file)) else ok false

abbrev pub other_keyfiles : Option String → List KeyslotContext → Result (List KeyslotContext)
other_keyfiles key_file [] = ok []
other_keyfiles key_file (c ∷ cs) = do
  matches ← matches_keyfile key_file c
  rest ← other_keyfiles key_file cs
  ok (if matches then rest else c ∷ rest)

unfoldable pub remove_keyfile : List KeyslotContext → Option String → Result (List KeyslotContext)
remove_keyfile cs key_file = do left ← other_keyfiles key_file cs; ok (sort_contexts left)

unfoldable pub remove_context : List KeyslotContext → KeyslotContext → Result (List KeyslotContext)
unfolding remove_passphrase remove_keyfile
remove_context cs c =
    if is_passphrase c
    then ok (remove_passphrase cs c.passphrase)
    else if is_keyfile c
    then remove_keyfile cs c.key_file
    else ok cs

-- The calls that change a list.
pub data Call : Type 0 where
  clear : Option String → Call
  add : KeyslotContext → Call
  add_phrase add_file : Option String → ℤ → Call
  remove_phrase remove_file : Option String → Call
  remove : KeyslotContext → Call

unfoldable pub call : List KeyslotContext → Call → Result (List KeyslotContext)
unfolding clear_contexts add_context add_passphrase add_keyfile remove_passphrase remove_keyfile
    remove_context
call cs (clear ctype) = ok (clear_contexts cs ctype)
call cs (add c) = ok (add_context cs c)
call cs (add_phrase passphrase priority) = add_passphrase cs passphrase priority
call cs (add_file key_file priority) = add_keyfile cs key_file priority
call cs (remove_phrase passphrase) = ok (remove_passphrase cs passphrase)
call cs (remove_file key_file) = remove_keyfile cs key_file
call cs (remove c) = remove_context cs c

-- The calls one after the other; one that raises leaves the list as it was.
abbrev pub left_or : List KeyslotContext → Result (List KeyslotContext) → List KeyslotContext
left_or cs (ok left) = left
left_or cs (err e) = cs

unfoldable pub calls : List KeyslotContext → List Call → List KeyslotContext
unfolding call
calls cs [] = cs
calls cs (x ∷ xs) = calls (left_or cs (call cs x)) xs
