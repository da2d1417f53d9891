-- ===== src/Runner/Tunnel.antt =====
-- `host`, `port` and `with_ssh_tunnel` of redash/query_runner/__init__.py: a run through a tunnel puts the
-- tunnel's local address into the configuration of the runner, and the remote one back afterwards.
-- `open_tunnel` stands for the package sshtunnel, and `run_query` for the wrapped method.
use dingolytics_backend.Base.{String, true, some, ◌≡◌, refl, arith, if◌then◌else◌, string_eq, ◌∙◌}
use dingolytics_backend.Base.Dict.{Dict, get, put, has_key, get-put}
use dingolytics_backend.Base.Result.{Result, ok, err, not_implemented, from_option}

-- `try: body` / `finally: assign`; an exception of the cleanup takes the place of the result.
finally {ℓ} : {A : Type ℓ} → Result A → Result (Unit {0}) → Result A
finally r (ok _) = r
finally r (err x) = err x

abbrev pub Action : Type 0 → Type 0 → Type 0
Action V A = Dict String V → Result A × Dict String V

module _ {V : Type 0} where
  -- The property getters.
  unfoldable pub host : Dict String V → Result V
  host config = from_option (get config "host") not_implemented

  unfoldable pub port : Dict String V → Result V
  port config = from_option (get config "port") not_implemented

  -- The property setters.
  unfoldable pub set_host : Dict String V → V → Result (Dict String V)
  set_host config v =
      if has_key config "host" then ok (put config "host" v) else err not_implemented

  unfoldable pub set_port : Dict String V → V → Result (Dict String V)
  set_port config v =
      if has_key config "port" then ok (put config "port" v) else err not_implemented

  -- `query_runner.host, query_runner.port = h, p`: what was assigned before an exception stays.
  unfoldable pub assign : Dict String V → V × V → Result (Unit {0}) × Dict String V
  unfolding set_host set_port
  assign config (h, p) = elim (set_host config h) [
    | err x ↦ (err x, config)
    | ok c ↦ elim (set_port c p) [ err x ↦ (err x, c) | ok d ↦ (ok tt, d) ]
  ]

  tunnelled : {A : Type 0} → Action V A → V × V → Action V A
  tunnelled run_query address config =
      let (assigned, c) = assign config address in
      elim assigned [ err x ↦ (err x, c) | ok _ ↦ run_query c ]

  -- The wrapper: `open_tunnel` gets the remote address and gives the local one.
  unfoldable pub with_ssh_tunnel : {A : Type 0} → (V → V → Result (V × V)) → Action V A → Action V A
  unfolding finally tunnelled
  with_ssh_tunnel open_tunnel run_query config = elim (host config) [
    | err _ ↦ (err not_implemented, config)
    | ok remote_host ↦ elim (port config) [
      | err _ ↦ (err not_implemented, config)
      | ok remote_port ↦ elim (open_tunnel remote_host remote_port) [
        | err x ↦ (err x, config)
        | ok address ↦
            let (result, c) = tunnelled run_query address config in
            let (restored, d) = assign c (remote_host, remote_port) in (finally result restored, d)
      ]
    ]
  ]

  -- A run that does not take the two keys out of the configuration.
  pub record KeepsAddress {A : Type 0} (run_query : Action V A) : Type 0 where
    pub host_kept :
        (c : Dict String V) → has_key c "host" ≡ true → has_key (run_query c).1 "host" ≡ true
    pub port_kept :
        (c : Dict String V) → has_key c "port" ≡ true → has_key (run_query c).1 "port" ≡ true

  assign_lem :
      (config : Dict String V) (h p : V)
      → has_key config "host" ≡ true
      → has_key config "port" ≡ true
      → assign config (h, p) ≡ (ok tt, put (put config "host" h) "port" p)
  unfolding assign
  assign_lem config h p hh hp = ground (arith, get-put config "host" "port" h)

  put_present :
      (c : Dict String V) (k j : String) (v : V) → has_key c j ≡ true → has_key (put c k v) j ≡ true
  put_present c k j v h = ground (arith, get-put c k j v)

  -- The runner's own address, as `get` shows it.
  abbrev pub HasAddress : Dict String V → V → V → Type 0
  HasAddress c h p = (get c "host" ≡ some h) × (get c "port" ≡ some p)

  address_assigned : (c : Dict String V) (h p : V) → HasAddress (put (put c "host" h) "port" p) h p
  address_assigned c h p = (
    get-put (put c "host" h) "port" "host" p ∙ get-put c "host" "host" h,
    get-put (put c "host" h) "port" "port" p,
  )

  module _ {A : Type 0} (open_tunnel : V → V → Result (V × V)) (run_query : Action V A)
      (c : Dict String V) (rh rp lh lp : V) (keeps : KeepsAddress run_query)
      (has : HasAddress c rh rp) (opened : open_tunnel rh rp ≡ ok (lh, lp)) where
    abbrev inner : Dict String V
    inner = put (put c "host" lh) "port" lp

    has_host : has_key inner "host" ≡ true
    has_host = rw ((address_assigned c lh lp).0)

    has_port : has_key inner "port" ≡ true
    has_port = rw ((address_assigned c lh lp).1)

    assigned_local : assign c (lh, lp) ≡ (ok tt, inner)
    assigned_local = assign_lem c lh lp (rw has.0) (rw has.1)

    abbrev outer : Dict String V
    outer = put (put (run_query inner).1 "host" rh) "port" rp

    assigned_back : assign (run_query inner).1 (rh, rp) ≡ (ok tt, outer)
    assigned_back =
        assign_lem (run_query inner).1 rh rp (keeps.host_kept inner has_host)
          (keeps.port_kept inner has_port)

    with_ssh_tunnel-eq : with_ssh_tunnel open_tunnel run_query c ≡ ((run_query inner).0, outer)
    unfolding with_ssh_tunnel host port
    with_ssh_tunnel-eq = ground (arith, has.0, has.1, opened, assigned_local, assigned_back)

  -- However the run ends and whatever it writes to the configuration, once a tunnel is open the result
  -- is that of the run at the tunnel's address, and the runner has its remote address back.
  with_ssh_tunnel_lem :
      {A : Type 0} (open_tunnel : V → V → Result (V × V)) (run_query : Action V A)
      (c : Dict String V) (remote_host remote_port local_host local_port : V)
      → KeepsAddress run_query
      → HasAddress c remote_host remote_port
      → open_tunnel remote_host remote_port ≡ ok (local_host, local_port)
      → let inner = put (put c "host" local_host) "port" local_port in
        ((with_ssh_tunnel open_tunnel run_query c).0 ≡ (run_query inner).0)
        × HasAddress (with_ssh_tunnel open_tunnel run_query c).1 remote_host remote_port
  with_ssh_tunnel_lem open_tunnel run_query c rh rp lh lp keeps has opened =
      rw (with_ssh_tunnel-eq open_tunnel run_query c rh rp lh lp keeps has opened)
        (refl, address_assigned (run_query (put (put c "host" lh) "port" lp)).1 rh rp)
