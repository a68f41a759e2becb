-- ===== src/Cooldown/Manager/Tests.antt =====
-- `consume` of manager.ts for a client with one command.
use extra.Prelude.{
  ◌^◌, ◌<◌, ◌/◌, ◌*◌, ltb, if◌then◌else◌, ℕ, ◌+◌, ◌≡◌, refl, ap, true, false, Option, none, some,
  arith,
}
use extra.Cooldown.Numbers.{nat}
use extra.Cooldown.Resource.{Key}
use extra.Cooldown.Commands.{Environment, Command, CooldownProps, resolve_explicit_bucket}
use extra.Cooldown.Key.{
  build_key, join_key, encode_uri_component, encode_byte, is_unreserved, hex_digit, type_label,
  is_blank,
}
use extra.Cooldown.Manager.{
  explicit, CooldownOptions, consume, prepare, resolve_bucket, resolve_limit, resolve_interval,
  assert_cost_within_limit, cost_of, Order, Outcome, ok,
}
use extra.Cooldown.Script.Agrees.{PrintsShort}
use extra.Cooldown.Manager.Agrees.{consume_agrees}
use extra.Cooldown.Tests.{function_cache, ping, one_bucket, u_1}

-- A client with the command "ping", three uses in 100 ms.
abbrev ping_props : CooldownProps
ping_props = record { type = none; interval = nat 100; uses = some (nat 3); group = none }

abbrev ping_command : Command
ping_command = record {
  identity = 1;
  name = ping;
  group = none;
  cooldown = some ping_props;
  guild_ids = none;
}

abbrev client : Environment
client = record {
  resolve_by_name = λ name guild.
      some (record { command = some ping_command; parent = none; full_command_name = name });
  call_resolver = λ f x. none;
  context = none;
}

abbrev ask : CooldownOptions
ask = explicit ping u_1 none (some (nat 2))

abbrev interval_of : Outcome (Option Order) → ℕ
interval_of (ok (some q)) = q.interval
interval_of _ = 0

asked_interval : interval_of (prepare (resolve_bucket client ask) (cost_of ask)) ≡ 100
unfolding prepare resolve_bucket resolve_limit resolve_interval assert_cost_within_limit
    resolve_explicit_bucket build_key join_key encode_uri_component encode_byte is_unreserved
    hex_digit type_label is_blank
asked_interval = refl

abbrev limit_of : Outcome (Option Order) → ℕ
limit_of (ok (some q)) = q.limit
limit_of _ = 0

asked_limit : limit_of (prepare (resolve_bucket client ask) (cost_of ask)) ≡ 3
unfolding prepare resolve_bucket resolve_limit resolve_interval assert_cost_within_limit
    resolve_explicit_bucket build_key join_key encode_uri_component encode_byte is_unreserved
    hex_digit type_label is_blank
asked_limit = refl

asked_in_time :
    (q : Order)
    → prepare (resolve_bucket client ask) (cost_of ask) ≡ ok (some q)
    → (q.limit < 10 ^ 14) × (40 + q.interval < 10 ^ 14)
asked_in_time q h =
    (omega (arith, asked_limit, ap limit_of h), omega (arith, asked_interval, ap interval_of h))

-- Short numbers as they are, and longer ones to tens.
abbrev to_tens : ℕ → ℕ
to_tens n = if ltb n (10 ^ 14) then n else n / 10 * 10

to_tens-PrintsShort : PrintsShort to_tens
to_tens-PrintsShort n h = ground arith

consume_agrees_example :
    ((consume function_cache to_tens client 40 true ask one_bucket).1
      ≡ (consume function_cache to_tens client 40 false ask one_bucket).1)
    × ((j : Key)
        → function_cache.get j (consume function_cache to_tens client 40 true ask one_bucket).0
          ≡ function_cache.get j (consume function_cache to_tens client 40 false ask one_bucket).0)
consume_agrees_example =
    consume_agrees function_cache to_tens client 40 one_bucket to_tens-PrintsShort ask asked_in_time
