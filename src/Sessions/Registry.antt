-- ===== src/Sessions/Registry.antt =====
-- The registry of names in src/core/session-store.ts and the three scripts that write it: the hashes
-- `gptq:registry`, `gptq:registry:pending` and `gptq:registry:restore`. A value is the raw text.
pub mod Laws
pub mod Published
use gptqueue.Prelude.{
  String, Bool, true, false, Option, none, some, List, [], ◌∷◌, if◌then◌else◌, str_eq, Dict, lookup,
  put, remove,
}

pub record Names : Type 0 where
  pub registry : Dict String
  pub pending : Dict String
  pub restore : Dict String

abbrev pub same : Option String → Option String → Bool
same (some v) (some w) = str_eq v w
same _ _ = false

-- HSET of a value that is there, HDEL otherwise.
abbrev pub set_or_delete : String → Option String → Dict String → Dict String
set_or_delete name none m = remove name m
set_or_delete name (some v) m = put name v m

-- The `restore` of the script that writes: the value to put back.
abbrev pub to_restore : String → Names → Option String
to_restore name st =
    if same (lookup name st.registry) (lookup name st.pending)
    then lookup name st.restore
    else lookup name st.registry

-- WRITE_PROVISIONAL_REGISTRY_SCRIPT
unfoldable pub write_provisional : (name value : String) → Names → Names
write_provisional name value st = record {
  registry = put name value st.registry;
  pending = put name value st.pending;
  restore = set_or_delete name (to_restore name st) st.restore;
}

abbrev pub is_value : Option String → String → Bool
is_value o v = same o (some v)

-- Whether the registry holds the value.
abbrev pub undone : Bool → (name value : String) → Names → Names × Bool
undone true name value st = (
  record {
    registry = set_or_delete name (lookup name st.restore) st.registry;
    pending = remove name st.pending;
    restore = remove name st.restore;
  },
  true,
)
undone false name value st = (
  record {
    registry = st.registry;
    pending =
        (if is_value (lookup name st.pending) value then remove name st.pending else st.pending);
    restore = st.restore;
  },
  false,
)

-- UNDO_REGISTRY_WRITE_SCRIPT
unfoldable pub undo_registry_write : (name value : String) → Names → Names × Bool
undo_registry_write name value st = undone (is_value (lookup name st.registry) value) name value st

-- PUBLISH_REGISTRATION_SCRIPT
unfoldable pub publish_registration : (name value : String) → Names → Names
publish_registration name value st = record {
  registry = put name value st.registry;
  pending = remove name st.pending;
  restore = remove name st.restore;
}

pub data RegistryEvent : Type 0 where
  write undo publish : (name value : String) → RegistryEvent

unfoldable pub after_event : RegistryEvent → Names → Names
unfolding write_provisional undo_registry_write publish_registration
after_event (write name value) st = write_provisional name value st
after_event (undo name value) st = (undo_registry_write name value st).0
after_event (publish name value) st = publish_registration name value st

unfoldable pub after_events : List RegistryEvent → Names → Names
unfolding after_event
after_events [] st = st
after_events (e ∷ es) st = after_events es (after_event e st)
