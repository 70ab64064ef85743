-- ===== src/Raft/Registry.antt =====
-- internal/consensus/service/registry.go. The channels are numbered as they are made; a channel holds
-- one message at most, and `full` are those that hold theirs.
use not_ahivemind.Base.{
  ℕ, ◌+◌, ◌<◌, ◌≡◌, ◌≢◌, inl, inr, Bool, Option, none, some, List, [], ◌∷◌, ◌==◌, arith,
  if◌then◌else◌, Text, text_eq_iff, text_eq_refl, Map, lookup, insert, remove, lookup-insert,
  lookup-remove, Option-cases,
}

pub record RequestRegistry : Type 0 where
  pub channels : Map ℕ
  pub made : ℕ
  pub full : List (ℕ × Bool)

-- What a channel holds.
unfoldable pub message : ℕ → List (ℕ × Bool) → Option Bool
message ch [] = none
message ch ((other, result) ∷ ms) = if other == ch then some result else message ch ms

abbrev pub new_request_registry : RequestRegistry
new_request_registry = record { channels = []; made = 0; full = [] }

-- The channel is returned.
unfoldable pub register : Text → RequestRegistry → RequestRegistry × ℕ
register id r = (record r { channels = insert id r.made r.channels; made = r.made + 1 }, r.made)

resolve_found : Text → Bool → Option ℕ → RequestRegistry → RequestRegistry
resolve_found id result none r = r
resolve_found id result (some ch) r = record r {
  channels = remove id r.channels;
  full = (ch, result) ∷ r.full;
}

unfoldable pub resolve : Text → Bool → RequestRegistry → RequestRegistry
unfolding resolve_found
resolve id result r = resolve_found id result (lookup id r.channels) r

unfoldable pub deregister : Text → RequestRegistry → RequestRegistry
deregister id r = record r { channels = remove id r.channels }

-- Every channel that waits was made before and is empty, no two requests wait on one, and only
-- channels that were made hold something.
pub record IsRegistry (r : RequestRegistry) : Type 0 where
  pub known : (id : Text) (ch : ℕ) → lookup id r.channels ≡ some ch → ch < r.made
  pub empty : (id : Text) (ch : ℕ) → lookup id r.channels ≡ some ch → message ch r.full ≡ none
  pub apart :
      (id other : Text) (ch : ℕ)
      → lookup id r.channels ≡ some ch
      → lookup other r.channels ≡ some ch
      → id ≡ other
  pub fresh : (ch : ℕ) (b : Bool) → message ch r.full ≡ some b → ch < r.made

-- What a client and AddLog do with the registry.
pub data RegistryCall : Type 0 where
  registers : Text → RegistryCall
  resolves : Text → Bool → RegistryCall
  deregisters : Text → RegistryCall

unfoldable pub call : RegistryCall → RequestRegistry → RequestRegistry
call (registers id) r = (register id r).0
call (resolves id result) r = resolve id result r
call (deregisters id) r = deregister id r

unfoldable pub calls : List RegistryCall → RequestRegistry → RequestRegistry
calls [] r = r
calls (c ∷ cs) r = calls cs (call c r)

module _ (r : RequestRegistry) (v : IsRegistry r) where
  made_empty : message r.made r.full ≡ none
  made_empty = elim (Option-cases (message r.made r.full)) [
    | inl e ↦ e
    | inr (b, e) ↦ absurd (omega (arith, v.fresh r.made b e))
  ]

  register-IsRegistry : (id : Text) → IsRegistry (register id r).0
  unfolding register
  register-IsRegistry id = record {
    known = λ k ch h. ground (arith, lookup-insert id k r.made r.channels, v.known k ch);
    empty =
        λ k ch h. ground (arith, lookup-insert id k r.made r.channels, made_empty, v.empty k ch);
    apart = λ k j ch h g. ground (
      arith,
      lookup-insert id k r.made r.channels,
      lookup-insert id j r.made r.channels,
      v.known k ch,
      v.known j ch,
      v.apart k j ch,
      text_eq_iff id k,
      text_eq_iff id j,
    );
    fresh = λ ch b h. ground (arith, v.fresh ch b);
  }

  resolve-IsRegistry : (id : Text) (result : Bool) → IsRegistry (resolve id result r)
  unfolding resolve message
  resolve-IsRegistry id result = record {
    known = λ k ch h. ground (arith, lookup-remove id k r.channels, v.known k ch);
    empty = λ k ch h.
        ground
          (arith, lookup-remove id k r.channels, v.empty k ch, v.apart id k ch, text_eq_iff id k);
    apart = λ k j ch h g.
        ground
          (arith, lookup-remove id k r.channels, lookup-remove id j r.channels, v.apart k j ch);
    fresh = λ ch b h. ground (arith, lookup-remove id id r.channels, v.fresh ch b, v.known id ch);
  }

  deregister-IsRegistry : (id : Text) → IsRegistry (deregister id r)
  unfolding deregister
  deregister-IsRegistry id = record {
    known = λ k ch h. ground (arith, lookup-remove id k r.channels, v.known k ch);
    empty = λ k ch h. ground (arith, lookup-remove id k r.channels, v.empty k ch);
    apart = λ k j ch h g.
        ground
          (arith, lookup-remove id k r.channels, lookup-remove id j r.channels, v.apart k j ch);
    fresh = v.fresh;
  }

  -- Resolving a registered request puts the result into the channel of its last registration, which was
  -- empty, and into no other; the request is then unknown, so that it is resolved only once.
  resolve_lem :
      (id : Text) (result again : Bool) (ch other : ℕ)
      → lookup id r.channels ≡ some ch
      → other ≢ ch
      → (message ch r.full ≡ none)
        × (message ch (resolve id result r).full ≡ some result)
        × (message other (resolve id result r).full ≡ message other r.full)
        × (resolve id again (resolve id result r) ≡ resolve id result r)
  unfolding resolve message
  resolve_lem id result again ch other found apart =
      ground (arith, v.empty id ch found, found, lookup-remove id id r.channels, text_eq_refl id)

  -- A request that is resolved before its client has registered it leaves the client's channel empty.
  resolve_early :
      (id : Text) (result : Bool)
      → lookup id r.channels ≡ none
      → let (after, ch) = register id (resolve id result r) in message ch after.full ≡ none
  unfolding resolve register
  resolve_early id result unknown = ground (arith, unknown, made_empty)

new_request_registry-IsRegistry : IsRegistry new_request_registry
unfolding lookup message
new_request_registry-IsRegistry = record {
  known = λ k ch h. absurd (ground arith);
  empty = λ k ch h. absurd (ground arith);
  apart = λ k j ch h g. absurd (ground arith);
  fresh = λ ch b h. absurd (ground arith);
}

call-IsRegistry : (c : RegistryCall) (r : RequestRegistry) → IsRegistry r → IsRegistry (call c r)
unfolding call
call-IsRegistry (registers id) r v = register-IsRegistry r v id
call-IsRegistry (resolves id result) r v = resolve-IsRegistry r v id result
call-IsRegistry (deregisters id) r v = deregister-IsRegistry r v id

calls_from-IsRegistry :
    (cs : List RegistryCall) (r : RequestRegistry) → IsRegistry r → IsRegistry (calls cs r)
unfolding calls
calls_from-IsRegistry [] r v = v
calls_from-IsRegistry (c ∷ cs) r v = calls_from-IsRegistry cs (call c r) (call-IsRegistry c r v)

-- Whatever calls are made on a new registry, every channel that waits for a result is empty, so that no
-- delivery blocks, and no two requests wait on one channel.
calls-IsRegistry : (cs : List RegistryCall) → IsRegistry (calls cs new_request_registry)
calls-IsRegistry cs = calls_from-IsRegistry cs new_request_registry new_request_registry-IsRegistry
