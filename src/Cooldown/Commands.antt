-- ===== src/Cooldown/Commands.antt =====
-- packages/cooldown/src/manager.ts: which bucket a call means. Commands are known by an identity for
-- `command !== parent`. The client's `resolveByName`, the resolver functions of users and the
-- context of the running command (context.ts) are parameters.
use extra.Prelude.{
  ℕ, Bool, true, false, not, ◌&&◌, ◌||◌, Option, none, some, List, [], ◌∷◌, ◌++◌, any, ◌==◌,
  if◌then◌else◌,
}
use mathlib.Core.Logic.{ite}
use extra.Cooldown.Numbers.{Num}
use extra.Cooldown.Resource.{Key-discrete}
use extra.Cooldown.Key.{
  Text, CooldownTarget, user, guild, channel, global, custom, KeyError, key, refused, build_key,
}

pub record CooldownProps : Type 0 where
  pub type : Option CooldownTarget
  pub interval : Num
  pub uses : Option Num
  pub group : Option Text

pub record Command : Type 0 where
  pub identity : ℕ
  pub name : Text
  pub group : Option Text
  pub cooldown : Option CooldownProps
  pub guild_ids : Option (List Text)

-- What `resolveByName` answers.
pub record CommandFromContent : Type 0 where
  pub command : Option Command
  pub parent : Option Command
  pub full_command_name : Text

pub record CooldownContext : Type 0 where
  pub author_id : Option Text
  pub channel_id : Option Text
  pub guild_id : Option Text
  pub command : Option Command
  pub full_command_name : Option Text

pub record Environment : Type 0 where
  pub resolve_by_name : Text → Option Text → Option CommandFromContent
  pub call_resolver : ℕ → CooldownContext → Option Text
  pub context : Option CooldownContext

abbrev pub or_text {ℓ} : {A : Type ℓ} → Option A → Option A → Option A
or_text none b = b
or_text (some a) b = some a

-- A text that JavaScript takes for true.
abbrev pub non_empty : Text → Bool
non_empty [] = false
non_empty (b ∷ t) = true

-- `parts.filter(Boolean).join(' ')`.
pub join_words : List Text → Text
join_words [] = []
join_words ([] ∷ ws) = join_words ws
join_words ((b ∷ t) ∷ ws) =
    let rest = join_words ws in if non_empty rest then (b ∷ t) ++ 32 ∷ rest else b ∷ t

abbrev text_or_empty : Option Text → Text
text_or_empty none = []
text_or_empty (some t) = t

pub get_full_command_name : CommandFromContent → Text
unfolding join_words
get_full_command_name r = elim r.command [
  | none ↦ r.full_command_name
  | some c ↦
      let own = if non_empty c.name then c.name else r.full_command_name in
      elim r.parent [
        | none ↦ own
        | some p ↦
            if c.identity == p.identity
            then own
            else join_words (p.name ∷ text_or_empty c.group ∷ c.name ∷ [])
      ]
]

-- `command.guildId && !command.guildId.includes(guildId)`.
unfoldable pub excludes_guild : Text → Option Command → Bool
excludes_guild g none = false
excludes_guild g (some c) = elim c.guild_ids [
  | none ↦ false
  | some ids ↦ not (any (λ i. ite (Key-discrete i g) true false) ids)
]

abbrev cooldown_of : Option Command → Option CooldownProps
cooldown_of none = none
cooldown_of (some c) = c.cooldown

abbrev guild_given : Option Text → Bool
guild_given none = false
guild_given (some g) = non_empty g

-- `undefined`, the Error outside of a cooldown scope, a RangeError of `buildKey`, or a bucket.
pub data Resolved : Type 0 where
  no_cooldown no_context : Resolved
  bad_key : KeyError → Resolved
  bucket : CooldownProps → Text → Resolved

module _ (env : Environment) where
  unfoldable pub get_command_data : Text → Option Text → Option (Text × Option CooldownProps)
  unfolding get_full_command_name excludes_guild
  get_command_data name guild_id = elim (env.resolve_by_name name guild_id) [
    | none ↦ none
    | some r ↦ elim r.command [
      | none ↦ none
      | some c ↦
          let answer = some (get_full_command_name r, or_text c.cooldown (cooldown_of r.parent)) in
          let g = text_or_empty guild_id in
          if guild_given guild_id && (excludes_guild g (some c) || excludes_guild g r.parent)
          then none
          else answer
    ]
  ]

  abbrev type_of : CooldownProps → CooldownTarget
  type_of p = elim p.type [ none ↦ user | some t ↦ t ]

  abbrev namespace_of : CooldownProps → Text → Text
  namespace_of p name = elim p.group [ none ↦ name | some g ↦ g ]

  pub bucket_for : CooldownProps → Text → Text → Resolved
  bucket_for p name target = elim (build_key (namespace_of p name) (type_of p) target) [
    | key k ↦ bucket p k
    | refused e ↦ bad_key e
  ]

  unfoldable pub resolve_explicit_bucket : Text → Text → Option Text → Resolved
  unfolding get_command_data bucket_for
  resolve_explicit_bucket name target guild_id = elim (get_command_data name guild_id) [
    | none ↦ no_cooldown
    | some (resolved_name, props) ↦ elim props [
      | none ↦ no_cooldown
      | some p ↦ if non_empty resolved_name then bucket_for p resolved_name target else no_cooldown
    ]
  ]

  pub resolve_context_target : CooldownContext → CooldownProps → Option Text
  resolve_context_target x p = elim (type_of p) [
    | custom f ↦ env.call_resolver f x
    | guild ↦ or_text x.guild_id x.author_id
    | channel ↦ or_text x.channel_id x.author_id
    | global ↦ some (103 ∷ 108 ∷ 111 ∷ 98 ∷ 97 ∷ 108 ∷ [])
    | user ↦ x.author_id
  ]

  -- The name and the settings that a running command has, its own first.
  pub scoped_data : CooldownContext → Option (Text × CooldownProps)
  unfolding get_command_data
  scoped_data x = elim x.command [
    | none ↦ none
    | some c ↦ elim x.full_command_name [
      | none ↦ none
      | some name ↦
          if non_empty name
          then elim c.cooldown [
            | some p ↦ some (name, p)
            | none ↦ elim (get_command_data name x.guild_id) [
              | none ↦ none
              | some (resolved_name, props) ↦ elim props [
                | none ↦ none
                | some p ↦ some (resolved_name, p)
              ]
            ]
          ]
          else none
    ]
  ]

  unfoldable pub resolve_scoped_bucket : Resolved
  unfolding scoped_data resolve_context_target bucket_for
  resolve_scoped_bucket = elim env.context [
    | none ↦ no_context
    | some x ↦ elim (scoped_data x) [
      | none ↦ no_cooldown
      | some (name, p) ↦ elim (resolve_context_target x p) [
        | none ↦ no_cooldown
        | some target ↦ bucket_for p name target
      ]
    ]
  ]
