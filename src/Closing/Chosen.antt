-- ===== src/Closing/Chosen.antt =====
-- What the choice of pools and the commands to open leave: what `maybeOpenNewConnections` of
-- conn_pool_facade_opener.go rests on.
use memsql_conn_pool.Base.{
  ℕ, suc, ◌+◌, ◌==◌, ◌≡◌, refl, ap, sym, ◌∙◌, true, List, [], ◌∷◌, ◌++◌, length, replicate, arith,
  Bool-cases, leb, inl, inr, length-append, length-replicate,
}
use memsql_conn_pool.Base.Int.{ℤ, pos, ◌+ℤ◌, ◌-ℤ◌, rounds, int_laws, +ℤ_parts, ◌≤ℤ◌}
use memsql_conn_pool.Facade.Counters.{opener_capacity, give_command_to_open_new_connections}
use memsql_conn_pool.Facade.Requests.{
  get_wait_count, request_loop, min_ℤ, eq_ℤ, get_conn_pools_that_have_requested_new_connections,
}
use memsql_conn_pool.Runtime.{Env, Bytes, World, ConnPoolFacade, ok, >>=-elim, ok-injective}

left_over : (r : ℤ) (n : ℕ) → pos 0 ≤ℤ r → pos 0 ≤ℤ r -ℤ min_ℤ (pos n) r
left_over r n h = grind int_laws

last_takes_all :
    (r : ℤ) (n : ℕ)
    → pos 0 ≤ℤ r
    → eq_ℤ (r -ℤ min_ℤ (pos n) r) (pos 0) ≡ true
    → rounds (min_ℤ (pos n) r) ≡ rounds r
last_takes_all r n h e = grind int_laws

counts_on :
    (r : ℤ) (n p : ℕ) (slice : List ℕ)
    → pos 0 ≤ℤ r
    → length (slice ++ replicate (rounds (min_ℤ (pos n) r)) p) + rounds (r -ℤ min_ℤ (pos n) r)
      ≡ length slice + rounds r
counts_on r n p slice h =
    rw
      (
        length-append slice (replicate (rounds (min_ℤ (pos n) r)) p),
        length-replicate (rounds (min_ℤ (pos n) r)) p,
      )
      (grind int_laws)

one_more :
    (n : ℤ) (k : ℕ) (m : ℤ) {t t' : ℤ}
    → (m ≤ℤ (n +ℤ pos 1) +ℤ pos k) × (t ≡ t')
    → (m ≤ℤ n +ℤ pos (suc k)) × (t ≡ t')
one_more n k m h = (omega (int_laws, h.0), h.1)

module _ {env : Env} where
  get_wait_count-keeps :
      (p : ℕ) (w : World env) {n : ℕ} {w' : World env}
      → get_wait_count p w ≡ ok n w'
      → w'.facade ≡ w.facade
  unfolding get_wait_count
  get_wait_count-keeps p w h = ground arith

  relate : {n k : ℕ} {f g h : ConnPoolFacade env} → g ≡ h → (n ≡ k) × (f ≡ g) → (n ≡ k) × (f ≡ h)
  relate e p = (p.0, p.1 ∙ e)

  relate_to :
      {n k m : ℕ} {f g h : ConnPoolFacade env}
      → k ≡ m
      → g ≡ h
      → (n ≡ k) × (f ≡ g)
      → (n ≡ m) × (f ≡ h)
  relate_to d e p = (p.0 ∙ d, p.1 ∙ e)

  last_round :
      (r : ℤ) (n p : ℕ) (slice : List ℕ) {w₃ w' : World env} {out : List ℕ} {f : ConnPoolFacade env}
      → w₃.facade ≡ f
      → pos 0 ≤ℤ r
      → eq_ℤ (r -ℤ min_ℤ (pos n) r) (pos 0) ≡ true
      → ok (slice ++ replicate (rounds (min_ℤ (pos n) r)) p) w₃ ≡ ok out w'
      → (length out ≡ length slice + rounds r) × (w'.facade ≡ f)
  last_round r n p slice same h last e =
      let (outs, worlds) = ok-injective e in
      (
        ap length (sym outs)
            ∙ length-append slice (replicate (rounds (min_ℤ (pos n) r)) p)
            ∙ ap (λ k. length slice + k)
                (length-replicate (rounds (min_ℤ (pos n) r)) p ∙ last_takes_all r n h last),
        ap (λ v. v.facade) (sym worlds) ∙ same,
      )

  -- What a choice that returns has chosen.
  request_loop-Returns :
      (ps : List (Bytes × ℕ)) (r : ℤ) (slice : List ℕ) (w : World env) {out : List ℕ}
      {w' : World env}
      → pos 0 ≤ℤ r
      → request_loop ps r slice w ≡ ok out w'
      → (length out ≡ length slice + rounds r) × (w'.facade ≡ w.facade)
  unfolding request_loop
  request_loop-Returns [] r slice w positive h = absurd (ground arith)
  request_loop-Returns ((_, p) ∷ ps) r slice w {out} {w'} positive h =
      >>=-elim (get_wait_count p) _ w h λ n₁ w₁ e₁ h₁.
        >>=-elim (get_wait_count p) _ w₁ h₁ λ n₂ w₂ e₂ h₂.
          let same₂ : w₂.facade ≡ w.facade =
            get_wait_count-keeps p w₁ e₂ ∙ get_wait_count-keeps p w e₁ in
          elim (Bool-cases (n₂ == 0)) [
            | inl skip ↦ relate same₂ (request_loop-Returns ps r slice w₂ positive (rw skip at h₂))
            | inr taken ↦ >>=-elim (get_wait_count p) _ w₂ (rw taken at h₂) λ n₃ w₃ e₃ h₃.
                let same₃ : w₃.facade ≡ w.facade = get_wait_count-keeps p w₂ e₃ ∙ same₂ in
                elim (Bool-cases (eq_ℤ (r -ℤ min_ℤ (pos n₃) r) (pos 0))) [
                  | inl last ↦ last_round r n₃ p slice same₃ positive last (rw last at h₃)
                  | inr more ↦ relate_to (counts_on r n₃ p slice positive) same₃ (
                      request_loop-Returns ps (r -ℤ min_ℤ (pos n₃) r)
                        (slice ++ replicate (rounds (min_ℤ (pos n₃) r)) p) w₃
                        (left_over r n₃ positive) (rw more at h₃))
                ]
          ]

  sent : World env → ℕ → World env
  sent w p =
      let f = w.facade in
      record w {
        facade = record f {
          num_opened = f.num_opened +ℤ pos 1;
          opener_channel = f.opener_channel ++ p ∷ [];
        };
      }

  pub give-Returns :
      (ps : List ℕ) (w : World env) {w' : World env}
      → give_command_to_open_new_connections ps w ≡ ok tt w'
      → (w'.facade.num_opened ≤ℤ w.facade.num_opened +ℤ pos (length ps))
        × (w'.facade.total_max ≡ w.facade.total_max)
  unfolding give_command_to_open_new_connections sent
  give-Returns [] w h = let (_, worlds) = ok-injective h in rw (← worlds) (omega int_laws, refl)
  give-Returns (p ∷ ps) w {w'} h = elim (Bool-cases w.facade.closed) [
    | inl shut ↦ ground (
      arith,
      +ℤ_parts w.facade.num_opened (pos 1),
      +ℤ_parts w.facade.num_opened (pos (suc (length ps))),
    )
    | inr open_still ↦ elim (Bool-cases (leb opener_capacity (length w.facade.opener_channel))) [
      | inl full ↦ absurd (ground (arith))
      | inr room ↦
          let rest : give_command_to_open_new_connections ps (sent w p) ≡ ok tt w' =
            ground (arith) in
          one_more w.facade.num_opened (length ps) w'.facade.num_opened
            (give-Returns ps (sent w p) rest)
    ]
  ]

  from_zero : {a b : ℕ} {f g : ConnPoolFacade env} → (a ≡ 0 + b) × (f ≡ g) → (a ≡ b) × (f ≡ g)
  from_zero h = (omega (arith, h.0), h.1)

  pub get_pools-Returns :
      (n : ℤ) (w : World env) {out : List ℕ} {w' : World env}
      → pos 0 ≤ℤ n
      → get_conn_pools_that_have_requested_new_connections n w ≡ ok out w'
      → (length out ≡ rounds n) × (w'.facade ≡ w.facade)
  unfolding get_conn_pools_that_have_requested_new_connections
  get_pools-Returns n w {out} {w'} positive h = elim (Bool-cases (eq_ℤ n (pos 0))) [
    | inl none_asked ↦
        let (outs, worlds) = ok-injective (rw none_asked at h) in
        rw (← outs, ← worlds) (ground arith, refl)
    | inr asked ↦ from_zero (
        request_loop-Returns (env.cmap_iter w.tick w.facade.pools) n []
          (record w { tick = suc w.tick }) {out = out} {w' = w'} positive (rw asked at h))
  ]
