-- ===== src/Crowdfund/Available.antt =====
-- What `get_available_tokens` of state.rs lists.
use flexible_pay_crowdfund_a.Base.{
  ℕ, ◌≤◌, ◌≡◌, ◌∙◌, ap, Bool, none, some, [], ◌∷◌, length, unwrap_or, min, length-take, arith,
  Option,
}
use flexible_pay_crowdfund_a.Chain.Dict.{Dict}
use flexible_pay_crowdfund_a.Crowdfund.State.{
  Store, max_limit, default_limit, keys_after, get_available_tokens,
}

keys_after-length : (d : Dict Bool) → length (keys_after none d) ≡ length d
keys_after-length [] = omega arith
keys_after-length ((k, b) ∷ d) = omega (arith, keys_after-length d)

-- From the start, the number of tokens listed is the least of the number asked for, which is 20 if
-- none is given, the 50 that the storage allows, and the number of tokens available.
pub get_available_tokens-length :
    (store : Store) (limit : Option ℕ)
    → length (get_available_tokens store none limit)
      ≡ min (min (unwrap_or limit default_limit) max_limit) (length store.available_tokens)
unfolding get_available_tokens
get_available_tokens-length store limit =
    length-take (min (unwrap_or limit default_limit) max_limit)
      (keys_after none store.available_tokens)
    ∙ ap (min (min (unwrap_or limit default_limit) max_limit))
        (keys_after-length store.available_tokens)

pub get_available_tokens-le :
    (store : Store) (n : ℕ) → length (get_available_tokens store none (some n)) ≤ n
get_available_tokens-le store n = omega (arith, get_available_tokens-length store (some n))
