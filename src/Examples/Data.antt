-- ===== src/Examples/Data.antt =====
-- A Boolean property with two closures over it, a channel, and a schedule.
use trust_tee.Prelude.{
  ℕ, ◌≡◌, refl, Bool, true, false, not, same, List, [], ◌∷◌, some, arith, length, get_or, ◌==◌,
}
use trust_tee.Memory.{Repr, unit_repr}
use trust_tee.Bincode.{Bincode}
use trust_tee.Slots.{ChannelPair}
use trust_tee.Serialization.{vtable_gen}
use trust_tee.Closures.{returned, VTables}
use trust_tee.Runtime.Records.{ClientPair}
use trust_tee.Channel.{Link, Event, idle, serve, fiber, others}
use trust_tee.Remote.Client.{Thread, Remote, Closure, ArgClosure, write_result, write_result_with}

abbrev pub bool_bytes : Bool → List ℕ
bool_bytes true = 1 ∷ []
bool_bytes false = 0 ∷ []

abbrev pub byte_bool : List ℕ → Bool
byte_bool bs = get_or bs 0 0 == 1

pub length-bool_bytes : (b : Bool) → length (bool_bytes b) ≡ 1
length-bool_bytes true = refl
length-bool_bytes false = refl

pub byte_bool-bool_bytes : (b : Bool) → byte_bool (bool_bytes b) ≡ b
byte_bool-bool_bytes true = refl
byte_bool-bool_bytes false = refl

abbrev pub bool_repr : Repr Bool
bool_repr = record {
  size = 1;
  align_log = 0;
  encode = bool_bytes;
  decode = byte_bool;
  size_bound = omega arith;
  align_bound = omega arith;
  length-encode = length-bool_bytes;
  decode-encode = byte_bool-bool_bytes;
}

pub bool_round_trip :
    (b : Bool) (bs : List ℕ) → some (bool_bytes b) ≡ some bs → some (byte_bool bs) ≡ some b
bool_round_trip true bs h = cc h
bool_round_trip false bs h = cc h

abbrev pub bool_bincode : Bincode Bool
bool_bincode = record {
  serialize = λ b. some (bool_bytes b);
  deserialize = λ bs. some (byte_bool bs);
  round_trip = bool_round_trip;
}

-- Replace the property by its comparison with the captured Boolean, and return the old one.
abbrev pub compare_with : Closure Bool Bool Bool
compare_with = record {
  repr = bool_repr;
  result = bool_repr;
  vtable = 512;
  run = λ f t. returned (same f t) t;
}

-- The same with an argument, and without a result.
abbrev pub compare_both : ArgClosure Bool Bool Bool Bool
compare_both = record {
  repr = bool_repr;
  result = bool_repr;
  vtable = 512;
  run = λ f t v. returned (same f (same t v)) t;
}

abbrev pub compare_only : Closure Bool Bool (Unit {0})
compare_only = record {
  repr = bool_repr;
  result = unit_repr;
  vtable = 512;
  run = λ f t. returned (same f t) tt;
}

abbrev pub bool_vtables : VTables Bool
bool_vtables = record {
  call_mut = λ a. vtable_gen bool_repr compare_only.run;
  call_mut_out = λ a. vtable_gen bool_repr (λ f t. write_result bool_repr (compare_with.run f t));
  call_mut_args_out =
      λ a. vtable_gen bool_repr (write_result_with bool_bincode bool_repr compare_both.run);
}

abbrev pub client_pair : ClientPair
client_pair = record { chan = 0; pending_launch = false; launch_req_ready = false }

abbrev pub channel : ChannelPair
channel = record { base = 4096; request_flags = 0; response_flags = 0; bytes = λ a. 0 }

abbrev pub link : Link Bool
link = record {
  port = record { client = client_pair; chan = channel; prop = true; jobs = [] };
  running = true;
}

abbrev pub client_thread : Thread
client_thread = record { id = 2; is_trustee = false }

abbrev pub trustee_thread : Thread
trustee_thread = record { id = 1; is_trustee = true }

abbrev pub remote : Remote
remote = record { trustee_id = 1; prop_published = true; owner = true }

-- Another client flips the property before the worker comes, and again before a fiber runs.
abbrev pub schedule : List (Event Bool)
schedule = idle ∷ others not ∷ serve ∷ others not ∷ fiber ∷ []
