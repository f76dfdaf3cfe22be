-- ===== src/Closing/Opening.antt =====
-- What `maybeOpenNewConnections` of conn_pool_facade_opener.go does where it need not evict.
use memsql_conn_pool.Base.{
  ℕ, suc, ◌+◌, ◌≤◌, ◌==◌, ◌≡◌, refl, ap, sym, ◌∙◌, if◌then◌else◌, Bool, true, false, List, [], ◌∷◌,
  ◌++◌, length, arith, leb, append-nil, length-append, append_assoc, Bool-cases, inl, inr,
}
use memsql_conn_pool.Base.Int.{ℤ, pos, ◌+ℤ◌, ◌-ℤ◌, ltb_ℤ, int_laws, ◌≤ℤ◌, eq_of_parts}
use memsql_conn_pool.Closing.{maybe_open_new_connections_with, maybe_open_new_connections}
use memsql_conn_pool.Facade.Counters.{
  opener_capacity, send_opener, give_command_to_open_new_connections,
}
use memsql_conn_pool.Facade.Requests.{min_ℤ, get_conn_pools_that_have_requested_new_connections}
use memsql_conn_pool.Facade.RequestLaws.{requests_served, AreFree, total_waits, shares, wait_count}
use memsql_conn_pool.Runtime.{Env, World, M, ok, ◌>>=◌, ◌>>◌}

plus_zero : (n : ℤ) → n +ℤ pos 0 ≡ n
plus_zero n = eq_of_parts _ _ (omega int_laws)

plus_suc : (n : ℤ) (k : ℕ) → (n +ℤ pos 1) +ℤ pos k ≡ n +ℤ pos (suc k)
plus_suc n k = eq_of_parts _ _ (omega int_laws)

enough_left : (n m : ℤ) (c : ℕ) → n +ℤ pos c ≤ℤ m → ltb_ℤ (m -ℤ n) (pos c) ≡ false
enough_left n m c h = grind int_laws

takes_all : (n m : ℤ) (c : ℕ) → n +ℤ pos c ≤ℤ m → min_ℤ (pos c) (m -ℤ n) ≡ pos c
takes_all n m c h = elim (Bool-cases (ltb_ℤ (pos c) (m -ℤ n))) [
  | inl less ↦ rw less refl
  | inr more ↦ rw more (eq_of_parts _ _ (grind int_laws))
]

module _ {env : Env} where
  sent_all : World env → List ℕ → World env
  sent_all w ps =
      let f = w.facade in
      record w {
        facade = record f {
          num_opened = f.num_opened +ℤ pos (length ps);
          opener_channel = f.opener_channel ++ ps;
        };
      }

  sent_none : (w : World env) → sent_all w [] ≡ w
  unfolding sent_all
  sent_none w = ground (arith, plus_zero w.facade.num_opened, append-nil w.facade.opener_channel)

  sent_more :
      (w : World env) (p : ℕ) (ps : List ℕ)
      → sent_all (sent_all w (p ∷ [])) ps ≡ sent_all w (p ∷ ps)
  unfolding sent_all
  sent_more w p ps = ground (
    arith,
    plus_suc w.facade.num_opened (length ps),
    append_assoc w.facade.opener_channel (p ∷ []) ps,
  )

  skip :
      {A : Type 0} (c : Bool) (m m' : M env A) (w : World env)
      → c ≡ false
      → (if c then m else m') w ≡ m' w
  skip true m m' w h = absurd (ground arith)
  skip false m m' w h = refl

  send-room :
      (p : ℕ) (w : World env)
      → leb opener_capacity (length w.facade.opener_channel) ≡ false
      → send_opener p w
        ≡ ok tt (
            let f = w.facade in
            record w { facade = record f { opener_channel = f.opener_channel ++ p ∷ [] } })
  send-room p w h = rw h refl

  give-sends :
      (ps : List ℕ) (w : World env)
      → w.facade.closed ≡ false
      → length w.facade.opener_channel + length ps ≤ opener_capacity
      → give_command_to_open_new_connections ps w ≡ ok tt (sent_all w ps)
  unfolding give_command_to_open_new_connections sent_all
  give-sends [] w still_open room = ap (ok tt) (sym (sent_none w))
  give-sends (p ∷ ps) w still_open room =
      let not_full : leb opener_capacity (length w.facade.opener_channel) ≡ false = ground arith in
      let step : give_command_to_open_new_connections (p ∷ ps) w
          ≡ give_command_to_open_new_connections ps (sent_all w (p ∷ [])) =
        skip w.facade.closed _ _ _ still_open
        ∙ rw
            (
              send-room p
                  (record w {
                    facade = let f = w.facade in record f { num_opened = f.num_opened +ℤ pos 1 };
                  })
                  not_full,
              ◌>>◌,
              ◌>>=◌,
            )
            refl in
      step
      ∙ give-sends ps (sent_all w (p ∷ [])) still_open
          (omega (arith, length-append w.facade.opener_channel (p ∷ [])))
      ∙ ap (ok tt) (sent_more w p ps)

  -- What a run that need not evict leaves: every waiting request that is counted has a connection
  -- on its way.
  abbrev pub opened : World env → World env
  opened w =
      let f = w.facade in
      let n = f.wait_count in
      record w {
        facade = record f {
          num_opened = f.num_opened +ℤ pos n;
          opener_channel =
              f.opener_channel ++ shares (wait_count w) (env.cmap_iter w.tick f.pools) n;
        };
        tick = if n == 0 then w.tick else suc w.tick;
      }

  -- Where the limit leaves room for every request that the facade counts, the pools have as many
  -- waiting, no mutex is held, the facade is open and the channel has room,
  -- `maybeOpenNewConnections` returns, has counted one connection for each request and has sent
  -- each pool's share to the opener.
  pub maybe_open_new_connections-opens :
      (fuel : ℕ) (w : World env)
      → w.facade.mu ≡ false
      → w.facade.closed ≡ false
      → AreFree w (env.cmap_iter w.tick w.facade.pools)
      → w.facade.wait_count ≤ total_waits w (env.cmap_iter w.tick w.facade.pools)
      → w.facade.num_opened +ℤ pos w.facade.wait_count ≤ℤ w.facade.total_max
      → length w.facade.opener_channel + w.facade.wait_count ≤ opener_capacity
      → maybe_open_new_connections fuel w ≡ ok tt (opened w)
  unfolding maybe_open_new_connections maybe_open_new_connections_with sent_all
  maybe_open_new_connections-opens fuel w unlocked still_open free waiting room sendable =
      rw (unlocked, ◌>>=◌)
        (rw (enough_left w.facade.num_opened w.facade.total_max w.facade.wait_count room) (
          rw (takes_all w.facade.num_opened w.facade.total_max w.facade.wait_count room) (
            rw (served, ◌>>=◌)
              (rw (give-sends out w₂ (still_open₂) (room₂), ◌>>=◌)
                (elim (Bool-cases (n == 0)) [
                  | inl z ↦ rw (z, as_many) refl
                  | inr z ↦ rw (z, as_many) refl
                ])))))
    where
      n : ℕ
      n = w.facade.wait_count

      w₁ : World env
      w₁ = let f = w.facade in record w { facade = record f { mu = true } }

      out : List ℕ
      out = shares (wait_count w₁) (env.cmap_iter w.tick w.facade.pools) n

      w₂ : World env
      w₂ = if n == 0 then w₁ else record w₁ { tick = suc w.tick }

      served : get_conn_pools_that_have_requested_new_connections (pos n) w₁ ≡ ok out w₂
      served = (requests_served w₁ n free waiting).0

      as_many : length out ≡ n
      as_many = (requests_served w₁ n free waiting).1

      still_open₂ : w₂.facade.closed ≡ false
      still_open₂ = ground arith

      room₂ : length w₂.facade.opener_channel + length out ≤ opener_capacity
      room₂ = elim (Bool-cases (n == 0)) [
        | inl z ↦ ground (arith, as_many)
        | inr z ↦ ground (arith, as_many)
      ]

  -- With no request counted, nothing is opened.
  pub nothing_waits :
      (fuel : ℕ) (w : World env)
      → w.facade.mu ≡ false
      → w.facade.wait_count ≡ 0
      → w.facade.num_opened +ℤ pos 0 ≤ℤ w.facade.total_max
      → maybe_open_new_connections fuel w
        ≡ ok tt (let f = w.facade in record w { facade = record f { mu = false } })
  unfolding maybe_open_new_connections maybe_open_new_connections_with
      get_conn_pools_that_have_requested_new_connections give_command_to_open_new_connections
  nothing_waits fuel w unlocked none_waits room =
      rw (unlocked, ◌>>=◌)
        (rw (none_waits) (
          rw (enough_left w.facade.num_opened w.facade.total_max 0 room)
            (rw (takes_all w.facade.num_opened w.facade.total_max 0 room) refl)))
