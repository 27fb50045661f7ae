-- ===== src/Chain/Message.antt =====
-- The messages that a handler answers with, and the AMP packets of
-- packages/std/src/amp/messages.rs. Attributes and events, which the chain only logs, are left out.
use flexible_pay_crowdfund_a.Base.{
  ℕ, Option, none, some, List, [], ◌∷◌, ◌++◌, Bool, true, false, map,
}
use flexible_pay_crowdfund_a.Chain.Coin.{Coin}

pub data ReplyOn : Type 0 where
  always error success never : ReplyOn

pub record IbcConfig : Type 0 where
  pub recovery_addr : Option ℕ

pub record AmpMsgConfig : Type 0 where
  pub reply_on : ReplyOn
  pub exit_at_error : Bool
  pub gas_limit : Option ℕ
  pub direct : Bool
  pub ibc_config : Option IbcConfig

-- `AMPMsgConfig::default`
abbrev pub default_config : AmpMsgConfig
default_config = record {
  reply_on = ReplyOn.always;
  exit_at_error = true;
  gas_limit = none;
  direct = false;
  ibc_config = none;
}

pub record AmpMsg : Type 0 where
  pub recipient : ℕ
  pub message : ℕ
  pub funds : List Coin
  pub config : AmpMsgConfig

-- `AMPMsg::new` where funds are given
abbrev pub new_amp_msg : ℕ → ℕ → List Coin → AmpMsg
new_amp_msg recipient message funds = record {
  recipient = recipient;
  message = message;
  funds = funds;
  config = default_config;
}

with_config : AmpMsg → Option IbcConfig → AmpMsg
with_config m c = let config = m.config in record m { config = record config { ibc_config = c } }

-- `AMPMsg::with_ibc_recovery`
unfoldable pub with_ibc_recovery : AmpMsg → Option ℕ → AmpMsg
unfolding with_config
with_ibc_recovery m recovery_addr = elim m.config.ibc_config [
  | some c ↦ with_config m (some (record { recovery_addr = recovery_addr }))
  | none ↦ elim recovery_addr [
    | some a ↦ with_config m (some (record { recovery_addr = some a }))
    | none ↦ m
  ]
]

pub record AmpCtx : Type 0 where
  pub origin : ℕ
  pub origin_username : Option ℕ
  pub previous_sender : ℕ
  pub id : ℕ

pub record AmpPkt : Type 0 where
  pub messages : List AmpMsg
  pub ctx : AmpCtx

-- `AMPPkt::new`
abbrev pub new_pkt : ℕ → ℕ → List AmpMsg → AmpPkt
new_pkt origin previous_sender messages = record {
  messages = messages;
  ctx = record {
    origin = origin;
    origin_username = none;
    previous_sender = previous_sender;
    id = 0;
  };
}

-- `AMPPkt::from_ctx`
abbrev pub from_ctx : Option AmpPkt → ℕ → AmpPkt
from_ctx none current_address = new_pkt current_address current_address []
from_ctx (some pkt) current_address =
    let ctx = pkt.ctx in
    record { messages = []; ctx = record ctx { previous_sender = current_address } }

-- `AMPPkt::add_message`
abbrev pub add_message : AmpPkt → AmpMsg → AmpPkt
add_message pkt m = record pkt { messages = pkt.messages ++ m ∷ [] }

-- The contents of a Wasm message: an opaque binary, one of the CW721 calls that the contracts make,
-- or a packet for the kernel.
pub data Payload : Type 0 where
  binary : ℕ → Payload
  mint : ℕ → ℕ → Option ℕ → ℕ → Payload
  transfer_nft : ℕ → ℕ → Payload
  burn : ℕ → Payload
  amp_receive : AmpPkt → Payload

-- The staking, distribution and governance messages that the vesting contract sends.
pub data StakingMsg : Type 0 where
  delegate undelegate : ℕ → Coin → StakingMsg
  redelegate : ℕ → ℕ → Coin → StakingMsg

pub data DistributionMsg : Type 0 where
  set_withdraw_address withdraw_delegator_reward : ℕ → DistributionMsg

pub data VoteOption : Type 0 where
  in_favor against abstain no_with_veto : VoteOption

-- `other` is a message of a kind that the handlers only pass on.
pub data CosmosMsg : Type 0 where
  bank_send : ℕ → List Coin → CosmosMsg
  wasm_execute : ℕ → Payload → List Coin → CosmosMsg
  staking : StakingMsg → CosmosMsg
  distribution : DistributionMsg → CosmosMsg
  gov_vote : ℕ → VoteOption → CosmosMsg
  other : ℕ → CosmosMsg

pub record SubMsg : Type 0 where
  pub id : ℕ
  pub msg : CosmosMsg
  pub gas_limit : Option ℕ
  pub reply_on : ReplyOn

-- `SubMsg::new`, `SubMsg::reply_always`
abbrev pub new_sub_msg : CosmosMsg → SubMsg
new_sub_msg m = record { id = 0; msg = m; gas_limit = none; reply_on = ReplyOn.never }

abbrev pub reply_always : CosmosMsg → ℕ → SubMsg
reply_always m id = record { id = id; msg = m; gas_limit = none; reply_on = ReplyOn.always }

-- `AMPPkt::to_sub_msg` where funds are given
abbrev pub to_sub_msg : AmpPkt → ℕ → List Coin → ℕ → SubMsg
to_sub_msg pkt address funds id = reply_always (wasm_execute address (amp_receive pkt) funds) id

-- The messages of a response.
abbrev pub Response : Type 0
Response = List SubMsg

abbrev pub add_message_to : Response → CosmosMsg → Response
add_message_to r m = r ++ new_sub_msg m ∷ []

abbrev pub add_messages : Response → List CosmosMsg → Response
add_messages r ms = r ++ map new_sub_msg ms
