-- ===== src/Ports/Wallet.antt =====
-- src/wallet/wallet_port.py: the value types and the port.
use banxe_payment_core.Prelude.{ℕ, String, Bool, List}
use banxe_payment_core.Exec.{Result}

pub data ChainId : Type 0 where
  btc ltc eth bsc trx xrp : ChainId

-- `.value` of the enumeration
abbrev pub chain_value : ChainId → String
chain_value ChainId.btc = "BTC"
chain_value ChainId.ltc = "LTC"
chain_value ChainId.eth = "ETH"
chain_value ChainId.bsc = "BSC"
chain_value ChainId.trx = "TRX"
chain_value ChainId.xrp = "XRP"

pub record WalletAddress : Type 0 where
  pub chain : ChainId
  pub address : String
  pub derivation_path : String
  pub public_key : String

pub record SignedTx : Type 0 where
  pub chain : ChainId
  pub raw_tx : String
  pub tx_hash : String

pub record SeedMaterial : Type 0 where
  pub entropy : List ℕ

-- Literal[12, 24]
pub data WordCount : Type 0 where
  twelve twenty_four : WordCount

-- The injected wallet: what each method returns or raises, given the calls made before it. A
-- transaction payload is any object; here a text stands for it.
pub record WalletPort (History : Type 0) : Type 0 where
  pub generate_seed_phrase : History → WordCount → Result String
  pub seed_phrase_to_entropy : History → String → Result SeedMaterial
  pub derive_address : History → SeedMaterial → ChainId → String → Result WalletAddress
  pub sign_tx : History → SeedMaterial → ChainId → String → String → Result SignedTx
  pub verify_signature : History → ChainId → String → String → String → Result Bool
  pub validate_address : History → ChainId → String → Result Bool
  pub encrypt : History → String → String → Result String
  pub decrypt : History → String → String → Result String
