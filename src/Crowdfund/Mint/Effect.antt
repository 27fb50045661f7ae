-- ===== src/Crowdfund/Mint/Effect.antt =====
-- What minting writes and asks for: `mint` and the loop of `execute_mint`.
use flexible_pay_crowdfund_a.Base.{
  ℕ, suc, subst, ◌+◌, ◌≡◌, ◌∙◌, sym, ap, refl, Bool, true, false, Option, none, some, List, [], ◌∷◌,
  ◌++◌, length, unwrap_or, arith, if◌then◌else◌, ◌==◌, Bool-cases, inl, inr,
}
use mathlib.Core.List.{append-nil, append_assoc}
use flexible_pay_crowdfund_a.Chain.Result.{
  ok, WhenOk, WhenOk-ok, WhenOk-mono, WhenOk-bind, or_err, or_err-eq-ok, not_found,
}
use flexible_pay_crowdfund_a.Chain.Uint.{u128_max, add_or_panic}
use flexible_pay_crowdfund_a.Chain.Dict.{Dict, IsSorted, save, save-IsSorted}
use flexible_pay_crowdfund_a.Chain.Message.{new_sub_msg, wasm_execute, Payload, Response}
use flexible_pay_crowdfund_a.Crowdfund.State.{Store}
use flexible_pay_crowdfund_a.Crowdfund.Mint.{
  CrowdfundMintMsg, is_none, add_available, mint, mint_all,
}

-- The tokens that are minted to the contract itself.
abbrev pub own_tokens : ℕ → List CrowdfundMintMsg → List ℕ
own_tokens own [] = []
own_tokens own (m ∷ ms) =
    let rest = own_tokens own ms in if unwrap_or m.owner own == own then m.token_id ∷ rest else rest

abbrev pub put_up : List ℕ → Dict Bool → Dict Bool
put_up [] d = d
put_up (t ∷ ts) d = put_up ts (save t true d)

-- A stored number grows; a number that is not stored stays so.
abbrev pub more : ℕ → Option ℕ → Option ℕ
more n none = none
more n (some m) = some (m + n)

-- One request to the token contract for each message.
abbrev pub requests : ℕ → ℕ → List CrowdfundMintMsg → Response
requests own token [] = []
requests own token (m ∷ ms) =
    new_sub_msg (
      wasm_execute token (Payload.mint m.token_id (unwrap_or m.owner own) m.token_uri m.extension)
        [])
    ∷ requests own token ms

pub put_up-IsSorted : (ts : List ℕ) (d : Dict Bool) → IsSorted d → IsSorted (put_up ts d)
put_up-IsSorted [] d v = v
put_up-IsSorted (t ∷ ts) d v = put_up-IsSorted ts (save t true d) (save-IsSorted t true d v)

-- The storage after tokens were put up for sale.
abbrev pub with_tokens : List ℕ → Store → Store
with_tokens ts store = record store {
  available_tokens = put_up ts store.available_tokens;
  number_of_tokens_available = more (length ts) store.number_of_tokens_available;
}

pub is_none-eq : {A : Type 0} (o : Option A) → is_none o ≡ true → o ≡ none
is_none-eq none h = refl
is_none-eq (some a) h = cc

adds : (n : ℕ) {m : ℕ} → add_or_panic u128_max n 1 ≡ ok m → m ≡ n + 1
adds n h = ground arith

add_available-with_tokens :
    (store : Store) (t : ℕ) → WhenOk (λ s. s ≡ with_tokens (t ∷ []) store) (add_available store t)
unfolding add_available
add_available-with_tokens store t =
    let After : Store → Type 0 = λ s. s ≡ with_tokens (t ∷ []) store in
    WhenOk-bind After (or_err store.number_of_tokens_available not_found) _ λ n found.
      WhenOk-bind After (add_or_panic u128_max n 1) _ λ m added.
        let stored = or_err-eq-ok store.number_of_tokens_available not_found found in
        let number : some m ≡ more 1 store.number_of_tokens_available =
          ap some (adds n added) ∙ sym (ap (more 1) stored) in
        λ i. record store {
          available_tokens = save t true store.available_tokens;
          number_of_tokens_available = number i;
        }

more-more : (n : ℕ) (o : Option ℕ) → more n (more 1 o) ≡ more (suc n) o
more-more n none = refl
more-more n (some m) = let same : m + 1 + n ≡ m + suc n = omega arith in ap some same

more_zero : (o : Option ℕ) → o ≡ more 0 o
more_zero none = refl
more_zero (some m) = let same : m ≡ m + 0 = omega arith in ap some same

abbrev pub After : ℕ → ℕ → Store → List CrowdfundMintMsg → Response → Store × Response → Type 0
After own token store ms resp out =
    (out.0 ≡ with_tokens (own_tokens own ms) store) × (out.1 ≡ resp ++ requests own token ms)

-- One message, where it puts up the tokens `ts`.
abbrev One : ℕ → ℕ → Store → CrowdfundMintMsg → List ℕ → Store × Response → Type 0
One own token store m ts out =
    (out.0 ≡ with_tokens ts store) × (out.1 ≡ requests own token (m ∷ []))

mint-own :
    (own token : ℕ) (store : Store) (m : CrowdfundMintMsg)
    → (unwrap_or m.owner own == own) ≡ true
    → WhenOk (One own token store m (m.token_id ∷ [])) (mint store own token m)
unfolding mint
mint-own own token store m ours = rw ours (
    WhenOk-bind (One own token store m (m.token_id ∷ [])) (add_available store m.token_id) _
      λ store' added. (WhenOk-ok _ _ (add_available-with_tokens store m.token_id) added, refl))

mint-other :
    (own token : ℕ) (store : Store) (m : CrowdfundMintMsg)
    → (unwrap_or m.owner own == own) ≡ false
    → WhenOk (One own token store m []) (mint store own token m)
unfolding mint
mint-other own token store m others = rw others (
  λ i. record store { number_of_tokens_available = more_zero store.number_of_tokens_available i },
  refl,
)

mint-After :
    (own token : ℕ) (store : Store) (m : CrowdfundMintMsg)
    → WhenOk (One own token store m (own_tokens own (m ∷ []))) (mint store own token m)
mint-After own token store m = elim (Bool-cases (unwrap_or m.owner own == own)) [
  | inl ours ↦
      let ts : m.token_id ∷ [] ≡ own_tokens own (m ∷ []) = rw ours refl in
      subst (λ l. WhenOk (One own token store m l) (mint store own token m)) ts
        (mint-own own token store m ours)
  | inr others ↦
      let ts : [] ≡ own_tokens own (m ∷ []) = rw others refl in
      subst (λ l. WhenOk (One own token store m l) (mint store own token m)) ts
        (mint-other own token store m others)
]

-- Tokens are put up one after the other.
with_both :
    (own : ℕ) (store : Store) (m : CrowdfundMintMsg) (ms : List CrowdfundMintMsg)
    → with_tokens (own_tokens own ms) (with_tokens (own_tokens own (m ∷ [])) store)
      ≡ with_tokens (own_tokens own (m ∷ ms)) store
with_both own store m ms = elim (Bool-cases (unwrap_or m.owner own == own)) [
  | inl ours ↦ rw ours (λ i. record store {
    available_tokens = put_up (own_tokens own ms) (save m.token_id true store.available_tokens);
    number_of_tokens_available =
        more-more (length (own_tokens own ms)) store.number_of_tokens_available i;
  })
  | inr others ↦ rw others (λ i. record store {
    available_tokens = put_up (own_tokens own ms) store.available_tokens;
    number_of_tokens_available =
        more (length (own_tokens own ms)) (sym (more_zero store.number_of_tokens_available) i);
  })
]

pub mint_all-After :
    (own token : ℕ) (store : Store) (ms : List CrowdfundMintMsg) (resp : Response)
    → WhenOk (After own token store ms resp) (mint_all store own token ms resp)
unfolding mint_all
mint_all-After own token store [] resp = (
  λ i. record store { number_of_tokens_available = more_zero store.number_of_tokens_available i },
  sym (append-nil resp),
)
mint_all-After own token store (m ∷ ms) resp =
    WhenOk-bind (After own token store (m ∷ ms) resp) (mint store own token m) _ λ r minted.
      let one =
        WhenOk-ok (One own token store m (own_tokens own (m ∷ []))) _ (mint-After own token store m)
          minted in
      WhenOk-mono (After own token r.0 ms (resp ++ r.1)) (After own token store (m ∷ ms) resp)
        (λ out all. (
          all.0 ∙ ap (with_tokens (own_tokens own ms)) one.0 ∙ with_both own store m ms,
          all.1
              ∙ ap (λ q. resp ++ q ++ requests own token ms) one.1
              ∙ append_assoc resp (requests own token (m ∷ [])) (requests own token ms),
        ))
        (mint_all r.0 own token ms (resp ++ r.1)) (mint_all-After own token r.0 ms (resp ++ r.1))
