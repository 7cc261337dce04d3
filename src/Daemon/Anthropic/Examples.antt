-- ===== src/Daemon/Anthropic/Examples.antt =====
-- The theorems about a stream of two events, and runs on single events.
use auto_ai.Common.{
  ℕ, [], ◌∷◌, ◌++◌, ◌≡◌, none, some, refl, string_eq, arith, String, List, Option, if◌then◌else◌,
  ◌==◌,
}
use auto_ai.Common.Chars.{list_eq}
use auto_ai.Common.Results.{ok, err}
use auto_ai.Daemon.Utf8.{from_utf8}
use auto_ai.Daemon.Sse.{Bytes, lf, find_boundary}
use auto_ai.Daemon.Sse.Chunks.{IsUtf8, IsText-frame, IsText-none}
use auto_ai.Daemon.Anthropic.{JsonReader, nothing_streamed, process_events}
use auto_ai.Config.Wire.{CompletionRequest, single}
use auto_ai.Common.{ap, true, false, beq-true_self}
use auto_ai.Daemon.Anthropic.Body.{
  JsonWriter, JsonWriterLaws, build_body, set_level, set_budget, parse_thinking_level,
}
use auto_ai.Daemon.Anthropic.Budget.{Fits, build_body-Fits}
use auto_ai.Daemon.Anthropic.Stream.{Arrival, Sent, complete_stream}
use auto_ai.Daemon.Anthropic.Cut.{complete_stream-cut}
use auto_ai.Daemon.Anthropic.Assembled.{Adds, process_events-Adds}

-- An object is a chain of fields.
data Value : Type 0 where
  null : Value
  str : String → Value
  number : ℕ → Value
  entry : String → Value → Value → Value

abbrev index : String → Value → Value
index k (Value.entry l v rest) = if l == k then v else index k rest
index k _ = Value.null

abbrev present : Value → Option Value
present Value.null = none
present v = some v

abbrev as_str : Value → Option String
as_str (Value.str s) = some s
as_str _ = none

abbrev as_u64 : Value → Option ℕ
as_u64 (Value.number n) = some n
as_u64 _ = none

abbrev delta : ℕ → String → String → Value
delta i k s = Value.entry "type" (Value.str "content_block_delta") (
    Value.entry "index" (Value.number i)
      (Value.entry "delta" (Value.entry k (Value.str s) Value.null) Value.null))

-- The event "a" is a text, and each other event a fragment of the call at 1.
abbrev from_event : List ℕ → Option Value
from_event event =
    some (if list_eq event (97 ∷ []) then delta 0 "text" "Hi" else delta 1 "partial_json" "{}")

abbrev reader : JsonReader
reader = record {
  Value = Value;
  index = index;
  get = λ k v. present (index k v);
  as_str = as_str;
  as_u64 = as_u64;
  as_array = λ v. none;
  from_event = from_event;
  from_str = λ s. if s == "{}" then ok Value.null else err "expected value";
  empty_object = Value.null;
}

-- "data:a" and "data:b", cut within the first boundary or after it
abbrev data_a : Bytes
data_a = b'd' ∷ b'a' ∷ b't' ∷ b'a' ∷ b':' ∷ b'a' ∷ []

abbrev data_b : Bytes
data_b = b'd' ∷ b'a' ∷ b't' ∷ b'a' ∷ b':' ∷ b'b' ∷ lf

abbrev whole : Bytes
whole = data_a ++ lf ++ data_b

whole-IsUtf8 : IsUtf8 whole
unfolding find_boundary from_utf8
whole-IsUtf8 =
    IsText-frame whole 6 refl (λ e. cc)
      (IsText-frame data_b 6 refl (λ e. cc) (λ n. IsText-none n [] refl))

complete_stream-cut_example :
    complete_stream reader "m" (
      Sent.streaming
        (Arrival.chunk (data_a ++ 10 ∷ []) ∷ Arrival.chunk (10 ∷ data_b) ∷ Arrival.cancelled ∷ []))
    ≡ complete_stream reader "m" (
        Sent.streaming
          (Arrival.chunk (data_a ++ lf) ∷ Arrival.chunk data_b ∷ Arrival.cancelled ∷ []))
complete_stream-cut_example =
    complete_stream-cut reader "m" (data_a ++ 10 ∷ []) (data_a ++ lf) ((10 ∷ data_b) ∷ [])
      (data_b ∷ []) (Arrival.cancelled ∷ []) (omega arith) whole-IsUtf8 refl

process_events-Adds_example :
    Adds 1 "Hi" "{}" nothing_streamed
      (process_events reader ((97 ∷ []) ∷ (98 ∷ []) ∷ []) nothing_streamed)
process_events-Adds_example =
    process_events-Adds reader 1 ((97 ∷ []) ∷ (98 ∷ []) ∷ []) nothing_streamed

-- A written object keeps what was set last in front.
data Json : Type 0 where
  null : Json
  str : String → Json
  num : ℕ → Json
  field : String → Json → Json → Json

abbrev read : String → Json → Option Json
read k (Json.field l v rest) = if k == l then some v else read k rest
read k _ = none

abbrev object : List (String × Json) → Json
object [] = Json.null
object ((k, v) ∷ fs) = Json.field k v (object fs)

abbrev writer : JsonWriter
writer = record {
  Value = Json;
  Double = ℕ;
  str = Json.str;
  num = Json.num;
  double = Json.num;
  boolean = λ b. Json.null;
  array = λ vs. Json.null;
  object = object;
  set = λ k v body. Json.field k v body;
  read = read;
}

writer-laws : JsonWriterLaws writer
writer-laws = record {
  read-object_nil = λ k. refl;
  read-object = λ k j v fs. refl;
  read-set_same = λ k v body. ap (λ b. if b then some v else read k body) (beq-true_self k);
  read-set_other = λ k j v body h. ap (λ b. if b then some v else read k body) h;
}

abbrev request : CompletionRequest Json ℕ
request = record (single "claude" "Hi") { thinking_level = some " HIGH "; temperature = some 1 }

build_body-Fits_example :
    Fits writer-laws (build_body writer true request)
    × (read "thinking" (build_body writer false request) ≡ none)
build_body-Fits_example = build_body-Fits writer-laws true request

-- The budget of the level "high" does not fit into the default limit.
raised_limit : read "max_tokens" (build_body writer true request) ≡ some (Json.num 9216)
unfolding build_body set_level parse_thinking_level set_budget
raised_limit = refl
