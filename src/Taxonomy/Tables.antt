-- ===== src/Taxonomy/Tables.antt =====
-- The error tables of packages/binance/src/taxonomy.ts: what the worker does with each code.
use new_bnbhack.Common.{Bool, true, false, List, [], ◌∷◌, Option, none, some}
use new_bnbhack.Common.Text.{Text, codes}

pub data ErrorAction : Type 0 where
  retry requote next_issuer market_closed reduce_size rpc_fallback defer fail : ErrorAction

-- `quoting` is the category 'quote'
pub data ErrorCategory : Type 0 where
  request auth compliance rate_limit server network quoting liquidity market swap : ErrorCategory
  broadcast defi unknown : ErrorCategory

pub record Rule : Type 0 where
  pub category : ErrorCategory
  pub action : ErrorAction
  pub alert : Bool
  pub user_key : Option Text
  pub meaning : Text

abbrev pub rule : ErrorCategory → ErrorAction → Bool → Option Text → Text → Rule
rule c a alert key m = record {
  category = c;
  action = a;
  alert = alert;
  user_key = key;
  meaning = m;
}

abbrev pub our_bug : Text → Rule
our_bug meaning = rule request fail true (some (codes "err.internal")) meaning

-- `GATEWAY`: gateway codes, the same in every module
unfoldable pub gateway : List (Text × Rule)
gateway =
    (codes "40001", our_bug (codes "invalid request parameters"))
    ∷ (
      codes "40101",
      rule auth fail true (some (codes "err.internal"))
          (codes "API key missing, invalid or disabled"),
    )
    ∷ (
      codes "40102",
      rule auth fail true (some (codes "err.internal")) (codes "signature mismatch"),
    )
    ∷ (
      codes "40103",
      rule auth fail true (some (codes "err.internal"))
          (codes "timestamp expired or request replayed (clock drift, or a signature sent twice)"),
    )
    ∷ (
      codes "40104",
      rule auth fail true (some (codes "err.internal")) (codes "API key lacks permission"),
    )
    ∷ (
      codes "40301",
      rule compliance fail true (some (codes "err.region"))
          (codes "service not available in region"),
    )
    ∷ (
      codes "40302",
      rule compliance fail true (some (codes "err.region")) (codes "proxy or VPN detected"),
    )
    ∷ (
      codes "40303",
      rule compliance fail true (some (codes "err.region"))
          (codes "unusual IP activity (multi-region)"),
    )
    ∷ (
      codes "40304",
      rule compliance fail true (some (codes "err.region")) (codes "compliance restriction"),
    )
    ∷ (
      codes "40311",
      rule compliance fail true (some (codes "err.trade")) (codes "KYT: high-risk address"),
    )
    ∷ (
      codes "40312",
      rule compliance fail true (some (codes "err.trade")) (codes "KYT: sanctioned address"),
    )
    ∷ (
      codes "40313",
      rule compliance fail true (some (codes "err.trade")) (codes "KYT: risky fund origin"),
    )
    ∷ (
      codes "40314",
      rule compliance fail true (some (codes "err.trade"))
          (codes "KYT: medium risk, needs confirmation"),
    )
    ∷ (codes "40411", our_bug (codes "chain not supported"))
    ∷ (codes "42900", rule rate_limit retry false none (codes "rate limit exceeded"))
    ∷ (
      codes "50000",
      rule server retry false (some (codes "err.internal")) (codes "internal server error"),
    )
    ∷ (
      codes "50001",
      rule server retry false (some (codes "err.internal"))
          (codes "service temporarily unavailable"),
    )
    ∷ []

-- `TRADING`: Trading API business codes
unfoldable pub trading_codes : List (Text × Rule)
trading_codes =
    (
      codes "40401",
      rule quoting requote false none (codes "quoteId expired (30 s TTL, measured 35 s)"),
    )
    ∷ (
      codes "40412",
      rule request fail true (some (codes "err.internal"))
          (codes "DEX contract not configured (backend)"),
    )
    ∷ (
      codes "40421",
      rule liquidity next_issuer false (some (codes "why.skipped.no_liquidity"))
          (codes "no liquidity for pair"),
    )
    ∷ (
      codes "40432",
      rule server retry false (some (codes "err.internal")) (codes "gas price estimate failed"),
    )
    ∷ (
      codes "40441",
      rule liquidity defer false (some (codes "why.skipped.no_liquidity"))
          (codes "no vendor returned a quote"),
    )
    ∷ (codes "40442", our_bug (codes "from and to token are the same"))
    ∷ (codes "40461", rule swap requote false none (codes "no valid swap route for the quote"))
    ∷ (codes "40462", our_bug (codes "quoteId does not match the swap parameters"))
    ∷ (
      codes "40463",
      rule swap reduce_size false (some (codes "why.deferred.quote_impact"))
          (codes "price impact over protection"),
    )
    ∷ (codes "40464", our_bug (codes "slippagePercent out of range"))
    ∷ (
      codes "40465",
      rule swap retry false (some (codes "err.trade")) (codes "vendor swap build failed"),
    )
    ∷ (codes "40466", our_bug (codes "invalid feePercent"))
    ∷ (codes "40467", our_bug (codes "invalid referrer wallet address"))
    ∷ (codes "40468", our_bug (codes "two referrer addresses"))
    ∷ (codes "40469", our_bug (codes "referrer not activated (Solana)"))
    ∷ (codes "40470", our_bug (codes "tax token with same-side fee (Solana)"))
    ∷ (
      codes "40365",
      rule liquidity next_issuer false (some (codes "why.skipped.no_liquidity"))
          (codes "Ondo pair not supported"),
    )
    ∷ (
      codes "40366",
      rule liquidity next_issuer false (some (codes "why.skipped.no_liquidity"))
          (codes "over Ondo single-order limit"),
    )
    ∷ (
      codes "40367",
      rule market market_closed false (some (codes "why.deferred.market_closed"))
          (codes "Ondo market not tradable"),
    )
    ∷ (codes "40368", our_bug (codes "Ondo stablecoin pair invalid"))
    ∷ (
      codes "40369",
      rule market market_closed false (some (codes "why.deferred.market_closed"))
          (codes "bStock outside trading time"),
    )
    ∷ (codes "40370", our_bug (codes "bStock trading pair invalid"))
    ∷ (
      codes "40374",
      rule liquidity next_issuer false (some (codes "why.skipped.no_liquidity"))
          (codes "RWA token has no liquidity"),
    )
    ∷ (
      codes "40375",
      rule liquidity next_issuer false (some (codes "why.skipped.below_min"))
          (codes "under the Ondo minimum"),
    )
    ∷ (codes "42901", our_bug (codes "RFQ order submit in progress"))
    ∷ []

-- `TRANSACTION`: Transaction API business codes
unfoldable pub transaction_codes : List (Text × Rule)
transaction_codes =
    (
      codes "40431",
      rule broadcast rpc_fallback false none (codes "Transaction API broadcast failed"),
    )
    ∷ (
      codes "40434",
      rule compliance fail true (some (codes "err.trade"))
          (codes "KYT check before broadcast failed"),
    )
    ∷ []

-- `DEFI`: DeFi API codes
unfoldable pub defi_codes : List (Text × Rule)
defi_codes =
    (
      codes "40434",
      rule compliance fail true (some (codes "err.trade")) (codes "KYT verification failed"),
    )
    ∷ (codes "40450", our_bug (codes "chain not supported for DeFi"))
    ∷ (codes "40451", our_bug (codes "investment invalid or not registered"))
    ∷ (codes "40452", rule defi fail true (some (codes "err.trade")) (codes "investment delisted"))
    ∷ (codes "40453", our_bug (codes "invalid DeFi request parameters"))
    ∷ (codes "40454", our_bug (codes "claim parameters do not match claim type"))
    ∷ (
      codes "40455",
      rule defi fail true (some (codes "err.trade")) (codes "health factor below threshold"),
    )
    ∷ (
      codes "40456",
      rule defi fail true (some (codes "err.trade")) (codes "position not found for wallet"),
    )
    ∷ (
      codes "40457",
      rule defi fail false (some (codes "err.trade")) (codes "no liquidity left to remove"),
    )
    ∷ (codes "40458", rule defi fail false (some (codes "err.trade")) (codes "zap failed"))
    ∷ (
      codes "40459",
      rule defi fail true (some (codes "err.trade")) (codes "DeFi build failed (see msg)"),
    )
    ∷ (
      codes "40460",
      rule defi fail false (some (codes "why.failed.simulation"))
          (codes "DeFi simulation reverted"),
    )
    ∷ (codes "40470", our_bug (codes "DeFi resource not found (protocol or investment id)"))
    ∷ (codes "40490", our_bug (codes "DeFi resource not found (protocol or investment id)"))
    ∷ (
      codes "40480",
      rule defi fail false (some (codes "why.failed.simulation")) (codes "insufficient balance"),
    )
    ∷ (
      codes "40481",
      rule defi defer false (some (codes "err.trade"))
          (codes "DeFi action temporarily unavailable"),
    )
    ∷ (
      codes "40482",
      rule server retry false (some (codes "err.internal")) (codes "blockchain RPC error"),
    )
    ∷ (
      codes "40483",
      rule server retry false (some (codes "err.internal")) (codes "DeFi service internal error"),
    )
    ∷ (
      codes "40484",
      rule defi fail false (some (codes "why.failed.simulation"))
          (codes "preview simulation reverted"),
    )
    ∷ (
      codes "40485",
      rule defi fail false (some (codes "why.failed.simulation")) (codes "redeem exceeds position"),
    )
    ∷ []
