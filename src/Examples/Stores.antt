-- ===== src/Examples/Stores.antt =====
-- The theorems of the durable log at concrete inputs: events of a denial and of a failed execution, under a
-- platform that writes the keys of objects in order and reads them back in that order.
use governed_autonomy_substr.Base.{
  Dict, List, Option, String, String-discrete, [], ap, eq_text, err, false, if◌then◌else◌, le_text,
  lookup, none, ok, refl, some, take_text, true, value_error, ◌∷◌, ◌≡◌, ◌⊎◌, ◌⧺◌,
}
use governed_autonomy_substr.Engine.{failure_event}
use governed_autonomy_substr.Examples.Calls.{artifact}
use governed_autonomy_substr.Examples.Policies.{decision}
use governed_autonomy_substr.Issuer.{denied_event}
use governed_autonomy_substr.Platform.{Platform}
use governed_autonomy_substr.Replay.{
  ReplayFrame, create_frame, empty_log, head_hash, last_hash, verify_chain, verify_frames,
}
use governed_autonomy_substr.Replay.Durable.{
  InStep, LogCall, ReadsBack, SameRows, appending, claiming_nonce, committed, in_memory, sqlite_run,
  sqlite_run-in_memory,
}
use governed_autonomy_substr.Replay.KeyOrder.{SortsKeys, insert_field, sort_keys}
use governed_autonomy_substr.Replay.Sqlite.{SqliteLog, append_row, empty_database, open_log, row_of}
use governed_autonomy_substr.Replay.Writers.{stale_append}
use governed_autonomy_substr.Value.{
  Fields, Items, Value, array, boolean, cons, dict, end, field, float, integer, nil, null, object,
  text,
}

-- JSON without escapes; every number is written as `0`.
mutual
  print : Value → String
  print (object fs) = "{" ⧺ (print_fields fs ⧺ "}")
  print (array vs) = "[" ⧺ (print_items vs ⧺ "]")
  print (text s) = "'" ⧺ (s ⧺ "'")
  print (integer n) = "0"
  print (float x) = "0"
  print (boolean true) = "true"
  print (boolean false) = "false"
  print null = "null"

  print_fields : Fields → String
  print_fields (field k v fs) = "'" ⧺ (k ⧺ ("':" ⧺ (print v ⧺ ("," ⧺ print_fields fs))))
  print_fields end = ""

  print_items : Items → String
  print_items (cons v vs) = print v ⧺ ("," ⧺ print_items vs)
  print_items nil = ""

write : Value → String
write v = print (sort_keys v)

abbrev denial : Dict Value
denial = denied_event "n" (("action", text "drop") ∷ []) decision

abbrev failure : Dict Value
failure = failure_event artifact "RuntimeError" "no connection"

-- The two texts that are read, each as the value with its keys in order.
abbrev read_event : String → Option Value
read_event s =
    if eq_text s (write (dict denial))
    then some (sort_keys (dict denial))
    else (if eq_text s (write (dict failure)) then some (sort_keys (dict failure)) else none)

instance abbrev stored : Platform
stored = record {
  json_dumps = write;
  json_loads = read_event;
  sha256 = λ s. "#" ⧺ s;
  urlsafe_b64decode = λ s. none;
  ed25519_verify = λ key raw payload. false;
  load_public_key = λ s. none;
  repr = λ v. "value";
}

stored-SortsKeys : SortsKeys
unfolding write
stored-SortsKeys v w same = ap print same

abbrev fresh : SqliteLog
fresh = record { database = empty_database; log = empty_log }

-- The last call is rolled back: its frame id is taken.
abbrev log_calls : List LogCall
log_calls =
    appending "authorization:n" denial
    ∷ claiming_nonce "n"
    ∷ appending "execution:n" failure
    ∷ appending "execution:n" failure
    ∷ []

denial-ReadsBack : ReadsBack write denial
unfolding write print sort_keys insert_field le_text String-discrete
denial-ReadsBack = (sort_keys (dict denial), refl, refl)

failure-ReadsBack : ReadsBack write failure
unfolding write print sort_keys insert_field le_text String-discrete take_text lookup
failure-ReadsBack = (sort_keys (dict failure), refl, refl)

sqlite_run-in_memory_example :
    let s = sqlite_run write log_calls fresh in
    (s.log ≡ in_memory (committed write log_calls fresh) empty_log)
    × (verify_chain s.log ≡ true)
    × (frames : List ReplayFrame) × (open_log write s.database
        ≡ ok (record {
          database = s.database;
          log = record { frames = frames; used_nonces = s.log.used_nonces };
        }))
    × SameRows write frames s.log.frames
sqlite_run-in_memory_example =
    sqlite_run-in_memory write stored-SortsKeys log_calls
      (denial-ReadsBack, (tt, (failure-ReadsBack, (failure-ReadsBack, tt))))

in_step : InStep write fresh
unfolding empty_log verify_chain verify_frames
in_step = record { rows_eq = refl; nonces_eq = refl; chain = refl; readable = tt }

abbrev denial_frame : ReplayFrame
denial_frame = create_frame "authorization:n" "" denial

abbrev ahead : SqliteLog
ahead = record {
  database = record { replay_frames = row_of write denial_frame ∷ []; consumed_nonces = [] };
  log = record { frames = denial_frame ∷ []; used_nonces = [] };
}

first_append : append_row write "authorization:n" denial fresh ≡ ok ahead
unfolding append_row create_frame empty_log last_hash
first_append = refl

stale_append_example :
    (b : SqliteLog) × (append_row write "execution:n" failure
        (record { database = ahead.database; log = fresh.log })
      ≡ ok b)
    × ((open_log write b.database
          ≡ err (value_error "SQLite replay log contains an invalid hash chain"))
        ⊎ ((create_frame "authorization:n" (head_hash fresh.log) denial).frame_hash
            ≡ head_hash fresh.log))
unfolding write print sort_keys insert_field le_text String-discrete create_frame empty_log
    last_hash take_text lookup
stale_append_example =
    stale_append write "authorization:n" "execution:n" denial failure fresh ahead stored-SortsKeys
      in_step denial-ReadsBack failure-ReadsBack first_append refl refl
