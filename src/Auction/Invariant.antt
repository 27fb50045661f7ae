-- ===== src/Auction/Invariant.antt =====
-- What the storage of the auction contract keeps to: ids below the counter, every auction under its
-- own id with the record of its bids, and every token's entry with an auction to lead to.
pub mod Handlers
pub mod Terms
pub mod Start
use flexible_pay_crowdfund_a.Base.{
  ℕ, suc, ◌+◌, ◌<◌, ◌≤◌, ◌≡◌, refl, ap, ◌∙◌, sym, subst, Bool, false, if◌then◌else◌, Bool-cases,
  Option-cases, Option, none, some, List, [], ◌∷◌, ◌++◌, arith, ◌==◌, eqb_self, ◌⊎◌, inl, inr,
}
use flexible_pay_crowdfund_a.Chain.Result.{
  Result, ok, err, auction_does_not_exist, not_found, or_err, or_err-eq-ok, WhenOk-ok, WhenOk-bind,
  WhenOk-self,
}
use flexible_pay_crowdfund_a.Chain.Dict.{Dict, may_load, save, may_load-save}
use flexible_pay_crowdfund_a.Chain.Dict.Every.{Every, WhenSome-some, WhenSome-mono}
use flexible_pay_crowdfund_a.Chain.Deps.{Deps, empty_text}
use flexible_pay_crowdfund_a.Ado.Base.{Ado}
use flexible_pay_crowdfund_a.Auction.Bidding.{IsCurrent}
use flexible_pay_crowdfund_a.Auction.State.{
  TokenAuctionState, AuctionInfo, Bid, Store, last, latest_auction_id,
  get_existing_token_auction_state,
}

-- The amounts of a record of bids grow strictly, from above `n`; the last is the highest.
abbrev pub Ascending : ℕ → List Bid → Type 0
Ascending n [] = Unit
Ascending n (b ∷ bs) = (n < b.amount) × Ascending b.amount bs

abbrev pub highest : ℕ × ℕ → List Bid → ℕ × ℕ
highest top [] = top
highest top (b ∷ bs) = highest (b.bidder, b.amount) bs

-- The state's highest bid is the last of a strictly ascending record, or there is none.
pub record IsHistory (bids : List Bid) (state : TokenAuctionState) : Type 0 where
  pub ascending : Ascending 0 bids
  pub top : highest (empty_text, 0) bids ≡ (state.high_bidder_addr, state.high_bidder_amount)

pub Ascending-append :
    (n : ℕ) (top : ℕ × ℕ) (bids : List Bid) (b : Bid)
    → top.1 ≡ n
    → Ascending n bids
    → (highest top bids).1 < b.amount
    → Ascending n (bids ++ b ∷ [])
Ascending-append n top [] b e a h = (subst (λ m. m < b.amount) e h, tt)
Ascending-append n top (c ∷ bids) b e a h =
    (a.0, Ascending-append c.amount (c.bidder, c.amount) bids b refl a.1 h)

pub highest-append :
    (top : ℕ × ℕ) (bids : List Bid) (b : Bid) → highest top (bids ++ b ∷ []) ≡ (b.bidder, b.amount)
highest-append top [] b = refl
highest-append top (c ∷ bids) b = highest-append (c.bidder, c.amount) bids b

-- An auction under its id, with its record.
pub record IsRecorded (next : ℕ) (bids : Dict (List Bid)) (id : ℕ) (state : TokenAuctionState)
    : Type 0 where
  pub own_id : state.auction_id ≡ id
  pub counted : id < next
  pub history : List Bid
  pub on_record : may_load id bids ≡ some history
  pub is_history : IsHistory history state

-- A token's entry ends in the id of a stored auction.
pub record Leads (states : Dict TokenAuctionState) (key : ℕ) (info : AuctionInfo) : Type 0 where
  pub id : ℕ
  pub state : TokenAuctionState
  pub ends : last info.auction_ids ≡ some id
  pub stored : may_load id states ≡ some state

pub record IsValid (store : Store) : Type 0 where
  pub next : ℕ
  pub counter : store.next_auction_id ≡ some next
  pub recorded : Every (IsRecorded next store.bids) store.token_auction_state
  pub leads : Every (Leads store.token_auction_state) store.auction_infos

-- The state as the contract is instantiated.
abbrev pub initial : Ado → Store
initial ado = record {
  ado = ado;
  next_auction_id = some 1;
  bids = [];
  token_auction_state = [];
  auction_infos = [];
}

pub initial-IsValid : (ado : Ado) → IsValid (initial ado)
initial-IsValid ado = record { next = 1; counter = refl; recorded = λ j. tt; leads = λ j. tt }

-- A saved auction is a stored one.
pub save-Leads :
    (id : ℕ) (state : TokenAuctionState) (states : Dict TokenAuctionState) (key : ℕ)
    (info : AuctionInfo)
    → Leads states key info
    → Leads (save id state states) key info
save-Leads id state states key info h =
    let looked = may_load-save h.id id state states in
    elim (Bool-cases (h.id == id)) [
      | inl same ↦ record {
        id = h.id;
        state = state;
        ends = h.ends;
        stored = looked ∙ ap (λ b. if b then some state else may_load h.id states) same;
      }
      | inr differ ↦ record {
        id = h.id;
        state = h.state;
        ends = h.ends;
        stored =
            looked ∙ ap (λ b. if b then some state else may_load h.id states) differ ∙ h.stored;
      }
    ]

-- The record of another auction is left alone.
pub others-IsRecorded :
    (next next' id : ℕ) (bids : Dict (List Bid)) (history : List Bid) (j : ℕ)
    → next ≤ next'
    → (j == id) ≡ false
    → (state : TokenAuctionState) → IsRecorded next bids j state
    → IsRecorded next' (save id history bids) j state
others-IsRecorded next next' id bids history j more differ state h = record {
  own_id = h.own_id;
  counted = let c = h.counted in omega (arith, c);
  history = h.history;
  on_record =
      may_load-save j id history bids
      ∙ ap (λ b. if b then some history else may_load j bids) differ
      ∙ h.on_record;
  is_history = h.is_history;
}

pub save-IsRecorded :
    (next id : ℕ) (bids : Dict (List Bid)) (history : List Bid) (state : TokenAuctionState)
    → id < next
    → state.auction_id ≡ id
    → IsHistory history state
    → IsRecorded next (save id history bids) id state
save-IsRecorded next id bids history state counted own h = record {
  own_id = own;
  counted = counted;
  history = history;
  on_record =
      may_load-save id id history bids
      ∙ ap (λ b. if b then some history else may_load id bids) (eqb_self id);
  is_history = h;
}

pub save-AllLead :
    (id : ℕ) (state : TokenAuctionState) (states : Dict TokenAuctionState)
    (infos : Dict AuctionInfo)
    → Every (Leads states) infos
    → Every (Leads (save id state states)) infos
save-AllLead id state states infos all j =
    WhenSome-mono (Leads states j) (Leads (save id state states) j) (save-Leads id state states j)
      (may_load j infos) (all j)

ends-latest :
    (o : Option AuctionInfo) (info : AuctionInfo) {id : ℕ}
    → o ≡ some info
    → last info.auction_ids ≡ some id
    → latest_auction_id o ≡ ok id
ends-latest o info h e = rw (h, latest_auction_id, e) refl

module _ (deps : Deps) (token_id token_address : ℕ) where
  -- The auction that a token's entry leads to, and its record.
  pub record Found (store : Store) (next : ℕ) (state : TokenAuctionState) : Type 0 where
    pub current : IsCurrent deps token_id token_address store state
    pub recorded : IsRecorded next store.bids state.auction_id state

  pub get_existing-Found :
      (store : Store) (v : IsValid store) {state : TokenAuctionState}
      → get_existing_token_auction_state deps store token_id token_address ≡ ok state
      → Found store v.next state
  unfolding get_existing_token_auction_state
  get_existing-Found store v h =
      let After = Found store v.next in
      let entry = may_load (deps.concat token_id token_address) store.auction_infos in
      WhenOk-ok After (get_existing_token_auction_state deps store token_id token_address)
        (WhenOk-bind After (latest_auction_id entry) _ λ id latest.
          WhenOk-self (or_err (may_load id store.token_auction_state) not_found) λ state found.
            let stored = or_err-eq-ok (may_load id store.token_auction_state) not_found found in
            let r =
              WhenSome-some (IsRecorded v.next store.bids id)
                (may_load id store.token_auction_state) (v.recorded id) stored in
            let own = r.own_id in
            record {
              current = record {
                latest = latest ∙ ap ok (sym own);
                stored = ap (λ j. may_load j store.token_auction_state) own ∙ stored;
              };
              recorded = subst (λ j. IsRecorded v.next store.bids j state) (sym own) r;
            })
        h

  -- A token has no auction yet, or its entry leads to one: no lookup panics or misses.
  pub get_existing-cases :
      (store : Store)
      → IsValid store
      → (get_existing_token_auction_state deps store token_id token_address
          ≡ err auction_does_not_exist)
        ⊎ ((state : TokenAuctionState) × (get_existing_token_auction_state deps store token_id
                token_address
              ≡ ok state))
  unfolding get_existing_token_auction_state
  get_existing-cases store v =
      let key = deps.concat token_id token_address in
      elim (Option-cases (may_load key store.auction_infos)) [
        | inl absent ↦ inl (rw (absent, get_existing_token_auction_state) refl)
        | inr (info, present) ↦
            let l =
              WhenSome-some (Leads store.token_auction_state key) (may_load key store.auction_infos)
                (v.leads key) present in
            inr (
              l.state,
              rw
                  (
                    ends-latest (may_load key store.auction_infos) info present l.ends,
                    l.stored,
                    get_existing_token_auction_state,
                  )
                  refl,
            )
      ]
