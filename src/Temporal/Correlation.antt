-- ===== src/Temporal/Correlation.antt =====
-- integrations/temporal/src/correlation.ts: what is read off the arguments of a call for logs and
-- traces. An argument is a JSON value, and `none` where it is `undefined`.
mod Tests
use synth_agent_runtime.Prelude.{
  List, Option, String, [], eqb, if◌then◌else◌, list_eq, nat_eq, none, option_eq, or_else, pair_eq,
  some, string_eq, ◌==◌, ◌∷◌,
}
use synth_agent_runtime.Prelude.Json.{Items, Json, array, cons, get_field, nil, object, text}
use Prim.Native.Char.{code}
use Prim.Native.String

-- `text.startsWith(prefix) ? text.slice(prefix.length) : undefined`
unfoldable pub after_prefix : String → String → Option String
after_prefix String.[] s = some s
after_prefix (String.◌∷◌ c p) String.[] = none
after_prefix (String.◌∷◌ c p) (String.◌∷◌ d s) =
    let rest = after_prefix p s in if eqb (code c) (code d) then rest else none

abbrev pub agent_workflow_prefix : String
agent_workflow_prefix = "agent/"

unfoldable pub non_empty : String → Option String
non_empty s = if s == "" then none else some s

unfoldable pub agent_id_from_workflow_id : Option String → Option String
unfolding after_prefix
agent_id_from_workflow_id none = none
agent_id_from_workflow_id (some id) =
    if id == "" then none else some (or_else (after_prefix agent_workflow_prefix id) id)

-- a property of a value that is an object
unfoldable pub property : String → Option Json → Option Json
unfolding get_field
property key (some (object fields)) = get_field key fields
property key _ = none

-- a text that is not empty
unfoldable pub read_text : Option Json → Option String
unfolding non_empty
read_text (some (text s)) = non_empty s
read_text _ = none

abbrev pub first_of : List (Option Json) → Option Json
first_of [] = none
first_of (a ∷ args) = a

unfoldable pub agent_id_from_args : List (Option Json) → Option String
unfolding property read_text
agent_id_from_args args = read_text (property "agentId" (first_of args))

unfoldable pub read_kind : Option Json → Option String
unfolding property read_text
read_kind value = read_text (property "kind" value)

-- a rung that is named by a text, or by the kind of an object
unfoldable pub rung_name : Option Json → Option String
unfolding read_kind non_empty
rung_name (some (text s)) = non_empty s
rung_name rung = read_kind rung

unfoldable pub rung_from_args : List (Option Json) → Option String
unfolding property rung_name
rung_from_args args = rung_name (property "rung" (property "config" (first_of args)))

unfoldable pub last_item : Items → Option Json
last_item nil = none
last_item (cons x nil) = some x
last_item (cons x (cons y xs)) = last_item (cons y xs)

-- the kind of the last message, if `messages` is there, and that of the value itself if not
unfoldable pub kind_of_messages : Option Json → Option Json → Option String
unfolding read_kind last_item
kind_of_messages first none = read_kind first
kind_of_messages first (some (array xs)) = read_kind (last_item xs)
kind_of_messages first (some _) = none

unfoldable pub message_kind_from_args : List (Option Json) → Option String
unfolding property kind_of_messages
message_kind_from_args args = kind_of_messages (first_of args) (property "messages" (first_of args))
