-- ===== src/Timelock/Release.antt =====
-- Releasing a page of escrows of the timelock contract always comes to an end that is not a missing
-- entry: every key of the page is still there when its turn comes.
use flexible_pay_crowdfund_a.Base.{
  ℕ, length, ◌+◌, subst, suc, ◌<◌, ◌≡◌, refl, ap, ◌∙◌, min, true, false, Option, none, some, List,
  [], ◌∷◌, ◌++◌, arith, is_empty, unwrap_or, if◌then◌else◌, Bool-cases, ◌⊎◌, inl, inr, ◌==◌,
  eqb_self,
}
use flexible_pay_crowdfund_a.Chain.Result.{ok, err, no_locked_funds, funds_are_locked}
use flexible_pay_crowdfund_a.Chain.Dict.{Dict, may_load, remove, measure, IsSorted, may_load-remove}
use flexible_pay_crowdfund_a.Chain.Dict.Every.{WhenSome}
use flexible_pay_crowdfund_a.Chain.Message.{Response}
use flexible_pay_crowdfund_a.Chain.Deps.{Deps, Env, MessageInfo, BlockInfo}
use flexible_pay_crowdfund_a.Ado.Recipient.{generate_direct_msg}
use flexible_pay_crowdfund_a.Timelock.State.{
  Escrow, Store, is_locked, get_keys_for_recipient, keys_for, default_limit, max_limit,
}
use flexible_pay_crowdfund_a.Timelock.Handlers.{release, execute_release_funds}
use flexible_pay_crowdfund_a.Timelock.Keys.{
  Waiting, Waiting-take, Waiting-remove, keys_for-Waiting, all_From,
}

removed : (j k : ℕ) (d : Dict Escrow) → (j == k) ≡ true → may_load j (remove k d) ≡ none
removed j k d h = may_load-remove j k d ∙ ap (λ b. if b then none else may_load j d) h

not_removed : (j k : ℕ) (d : Dict Escrow) → j < k → may_load j (remove k d) ≡ may_load j d
not_removed j k d h =
    let differ : (j == k) ≡ false = ground arith in
    may_load-remove j k d ∙ ap (λ b. if b then none else may_load j d) differ

-- Nothing unlocked is left under the keys.
abbrev pub Done : BlockInfo → List ℕ → Dict Escrow → Type 0
Done block [] d = Unit
Done block (k ∷ ks) d = WhenSome (λ e. is_locked e block ≡ true) (may_load k d) × Done block ks d

-- How many of the keys have an escrow that is not locked.
abbrev pub unlocked : BlockInfo → List ℕ → Dict Escrow → ℕ
unlocked block [] d = 0
unlocked block (k ∷ ks) d =
    measure (λ e. if is_locked e block then 0 else 1) (may_load k d) + unlocked block ks d

unlocked-remove :
    (block : BlockInfo) (j b : ℕ) (ks : List ℕ) (d : Dict Escrow)
    → j < b
    → Waiting b ks d
    → unlocked block ks (remove j d) ≡ unlocked block ks d
unlocked-remove block j b [] d h w = refl
unlocked-remove block j b (k ∷ ks) d h w =
    let l = w.0 in
    let differ : (k == j) ≡ false = ground arith in
    let same : may_load k (remove j d) ≡ may_load k d =
      may_load-remove k j d ∙ ap (λ b. if b then none else may_load k d) differ in
    let rest = unlocked-remove block j (suc k) ks d (omega (arith, l, h)) w.2 in
    λ i. measure (λ e. if is_locked e block then 0 else 1) (same i) + rest i

length-snoc : {A : Type 0} (xs : List A) (x : A) → length (xs ++ x ∷ []) ≡ suc (length xs)
length-snoc [] x = refl
length-snoc (y ∷ xs) x = let h = length-snoc xs x in omega (arith, h)

is_empty-length : {A : Type 0} (xs : List A) → is_empty xs ≡ true → length xs ≡ 0
is_empty-length [] h = refl
is_empty-length (x ∷ xs) h = cc

nonempty-length : {A : Type 0} (xs : List A) → is_empty xs ≡ false → 0 < length xs
nonempty-length [] h = cc
nonempty-length (x ∷ xs) h = omega arith

module _ (deps : Deps) (resolve : ℕ → ℕ)
    (resolves : (a : ℕ) → deps.get_raw_address a ≡ ok (resolve a)) where
  sends : (e : Escrow) → (msg : _) × (generate_direct_msg deps e.recipient e.coins ≡ ok msg)
  unfolding generate_direct_msg
  sends e = rw (resolves e.recipient.address) (_, refl)

  release-Done :
      (block : BlockInfo) (b : ℕ) (keys : List ℕ) (acc : Dict Escrow × Response)
      → Waiting b keys acc.0
      → (out : Dict Escrow × Response) × (release deps block keys acc ≡ ok out)
        × Done block keys out.0
        × (length out.1 ≡ length acc.1 + unlocked block keys acc.0)
        × ((j : ℕ) → j < b → may_load j out.0 ≡ may_load j acc.0)
  unfolding release
  release-Done block b [] acc w = (acc, refl, tt, omega arith, λ j h. refl)
  release-Done block b (key ∷ keys) (escrows, msgs) (low, (e, found), w) =
      elim (Bool-cases (is_locked e block)) [
        | inl locked ↦
            let (out, runs, done, sent, same) =
              release-Done block (suc key) keys (escrows, msgs) w in
            let kept : may_load key out.0 ≡ some e = same key (omega arith) ∙ found in
            (
              out,
              rw (found, locked) runs,
              (rw kept locked, done),
              rw (found, locked) (omega (arith, sent)),
              λ j h. same j (omega (arith, low, h)),
            )
        | inr free ↦
            let (msg, sent) = sends e in
            let (out, runs, done, all, same) =
              release-Done block (suc key) keys (remove key escrows, msgs ++ msg ∷ [])
                (Waiting-remove key (suc key) keys escrows (omega arith) w) in
            let gone : may_load key out.0 ≡ none =
              same key (omega arith) ∙ removed key key escrows (eqb_self key) in
            (
              out,
              rw (found, free, sent) runs,
              (rw gone tt, done),
              (let one = length-snoc msgs msg in
                  let rest = unlocked-remove block key (suc key) keys escrows (omega arith) w in
                  rw (found, free) (omega (arith, all, one, rest))),
              λ j h.
                  same j (omega (arith, low, h))
                  ∙ not_removed j key escrows (omega (arith, low, h)),
            )
      ]

  -- If every address resolves, releasing a recipient's funds ends in one of three ways. The page of
  -- the recipient's keys is empty, and that is the error; or the page has keys, but the escrows of all
  -- of them are locked, and that is the error; or some escrow of the page is not locked, and then it
  -- succeeds, with one message for each of those, and none of them is left.
  pub execute_release_funds_total :
      (env : Env) (info : MessageInfo) (store : Store) (recipient_addr start_after limit : Option ℕ)
      {keys : List ℕ}
      → IsSorted store.escrows
      → get_keys_for_recipient store (unwrap_or recipient_addr info.sender) start_after limit ≡ keys
      → ((length keys ≡ 0)
          × (execute_release_funds deps env info store recipient_addr start_after limit
              ≡ err no_locked_funds))
        ⊎ (((0 < length keys)
              × (unlocked env.block keys store.escrows ≡ 0)
              × (execute_release_funds deps env info store recipient_addr start_after limit
                  ≡ err funds_are_locked))
            ⊎ ((0 < unlocked env.block keys store.escrows)
                × (out : Store × Response) × (execute_release_funds deps env info store
                      recipient_addr start_after limit
                    ≡ ok out)
                × (length out.1 ≡ unlocked env.block keys store.escrows)
                × Done env.block keys out.0.escrows))
  unfolding execute_release_funds get_keys_for_recipient
  execute_release_funds_total env info store recipient_addr start_after limit {keys} sorted page =
      let r = unwrap_or recipient_addr info.sender in
      let n = min (unwrap_or limit default_limit) max_limit in
      let all = keys_for r start_after store.escrows in
      let waits : Waiting 0 keys store.escrows =
        subst (λ ks. Waiting 0 ks store.escrows) page
          (Waiting-take n 0 all store.escrows (
            keys_for-Waiting r start_after 0 store.escrows store.escrows sorted
              (all_From store.escrows) (λ j h. refl))) in
      let (acc, runs, done, sent, _) = release-Done env.block 0 keys (store.escrows, []) waits in
      rw page (elim (Bool-cases (is_empty keys)) [
        | inl none_held ↦ inl (is_empty-length keys none_held, rw none_held refl)
        | inr some_held ↦ elim (Bool-cases (is_empty acc.1)) [
          | inl none_sent ↦
              let no_messages = is_empty-length acc.1 none_sent in
              inr (
                inl (
                  nonempty-length keys some_held,
                  omega (arith, sent, no_messages),
                  rw (some_held, runs, none_sent) refl,
                ))
          | inr some_sent ↦
              let messages = nonempty-length acc.1 some_sent in
              inr (
                inr (
                  omega (arith, sent, messages),
                  (record store { escrows = acc.0 }, acc.1),
                  rw (some_held, runs, some_sent) refl,
                  omega (arith, sent),
                  done,
                ))
        ]
      ])
