-- ===== src/Agent/Runtime/Online.antt =====
-- Connections and presence of agents (web/agent/connections.go).
use mango_hub.Base.{ℕ, ◌+◌, ◌≡◌, ◌≢◌, true, false, none, Bytes, eqb_refl, ltb, arith}
use mango_hub.Base.Assoc.{lookup, insert, lookup-insert, lookup-delete}
use mango_hub.Agent.Runtime.{
  Agents, default_presence_ttl, get_connected_client, set_connected_clients,
  delete_client_conditionally, set_presence, is_online,
}

module _ {B : Type 0} where
  -- When a connection ends, DeleteClientConditionally removes the agent only if that connection is
  -- still its current one: if the agent has connected anew, nothing changes; and a connection that
  -- was set and ends leaves the agent with none.
  pub delete_client_conditionally-set :
      (uuid : Bytes) (old new : ℕ) (a : Agents B)
      → old ≢ new
      → (delete_client_conditionally uuid old (set_connected_clients uuid new a)
          ≡ set_connected_clients uuid new a)
        × (get_connected_client uuid
              (delete_client_conditionally uuid new (set_connected_clients uuid new a))
            ≡ none)
  unfolding delete_client_conditionally set_connected_clients get_connected_client
  delete_client_conditionally-set uuid old new a ne = ground (
    arith,
    eqb_refl uuid,
    lookup-insert uuid uuid new a.connected_clients,
    lookup-delete uuid uuid (insert uuid new a.connected_clients),
  )

  -- A presence that was set lasts for its time of 20 seconds and no longer, for an agent without a
  -- connection; the end of another connection of the agent does not cut it short, and its own does.
  pub set_presence-is_online :
      (uuid : Bytes) (id other now later : ℕ) (a : Agents B)
      → lookup uuid a.connected_clients ≡ none
      → other ≢ id
      → (is_online uuid later
            (set_presence uuid other false later (set_presence uuid id true now a))
          ≡ ltb later (now + default_presence_ttl))
        × (is_online uuid later (set_presence uuid id false later (set_presence uuid id true now a))
            ≡ false)
  unfolding set_presence is_online
  set_presence-is_online uuid id other now later a off ne = ground (
    arith,
    eqb_refl uuid,
    lookup-insert uuid uuid (record { id = id; expire = now + default_presence_ttl })
        a.presence_only,
    lookup-delete uuid uuid
        (insert uuid (record { id = id; expire = now + default_presence_ttl }) a.presence_only),
  )
