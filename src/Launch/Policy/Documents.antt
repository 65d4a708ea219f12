-- ===== src/Launch/Policy/Documents.antt =====
-- The documents that `parseLaunchAllowlist` of src/core/launch-policy.ts loads.
use gptqueue.Prelude.{
  String, false, Option, none, some, List, [], ◌∷◌, ◌≡◌, refl, ap, ◌∙◌, All, trim, is_blank,
}
use gptqueue.Value.{
  Value, Items, arr, obj, str, num, undefined, nil, as_str, cons, end, field, of_strs,
  str_items-of_strs,
}
use gptqueue.Launch.Commands.{LaunchAllowlistEntry}
use gptqueue.Launch.Policy.{
  loaded, parse_launch_allowlist, parse_document, parse_templates, parse_commands, parse_entry,
}

abbrev pub templates_value : List (List String) → Items
templates_value [] = nil
templates_value (t ∷ ts) = cons (arr (of_strs t)) (templates_value ts)

abbrev pub comment_value : Option String → Value
comment_value none = undefined
comment_value (some s) = str s

abbrev pub entry_value : LaunchAllowlistEntry → Value
entry_value e = obj (
    field "command" (str e.command) (
      field "allowed_args" (arr (templates_value e.allowed_args))
        (field "comment" (comment_value e.comment) end)))

abbrev pub commands_value : List LaunchAllowlistEntry → Items
commands_value [] = nil
commands_value (e ∷ es) = cons (entry_value e) (commands_value es)

-- The document that an operator writes for a list of entries.
abbrev pub document : List LaunchAllowlistEntry → Value
document es = obj (field "version" (num 2) (field "commands" (arr (commands_value es)) end))

abbrev pub IsTrimmed : LaunchAllowlistEntry → Type 0
IsTrimmed e = (is_blank e.command ≡ false) × (trim e.command ≡ e.command)

parse-templates : (ts : List (List String)) → parse_templates (templates_value ts) ≡ some ts
parse-templates [] = refl
parse-templates (t ∷ ts) = rw (str_items-of_strs t, parse-templates ts) refl

as_str-comment : (c : Option String) → as_str (comment_value c) ≡ c
as_str-comment none = refl
as_str-comment (some s) = refl

parse-entry : (e : LaunchAllowlistEntry) → IsTrimmed e → parse_entry (entry_value e) ≡ some e
parse-entry e (blank, trimmed) =
    rw (as_str-comment e.comment, parse-templates e.allowed_args, blank, trimmed) refl

parse-commands :
    (es : List LaunchAllowlistEntry)
    → All IsTrimmed es
    → parse_commands (commands_value es) ≡ some es
parse-commands [] h = refl
parse-commands (e ∷ es) (h, hs) = rw (parse-entry e h, parse-commands es hs) refl

-- The document of a list of entries with trimmed commands that are not blank loads as exactly
-- those entries, with every template complete and in order.
pub parse-document :
    (parse_json : String → Option Value) (raw : String) (es : List LaunchAllowlistEntry)
    → parse_json raw ≡ some (document es)
    → All IsTrimmed es
    → parse_launch_allowlist parse_json raw ≡ loaded (record { version = 2; commands = es })
unfolding parse_launch_allowlist
parse-document parse_json raw es there h = ap parse_document there ∙ rw (parse-commands es h) refl
