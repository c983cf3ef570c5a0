-- ===== src/ReferralRewards/Calls.antt =====
-- The calls of the referral rewards. The token and the invoice contract that they call are arguments.
use kora_contract.Prelude.{
  Bool, true, false, not, ◌&&◌, Option, none, some, ◌==◌, if◌then◌else◌, unwrap_or, is_some,
}
use kora_contract.Prelude.Int.{ℤ, pos, leb_ℤ, ltb_ℤ}
use kora_contract.Prelude.Int128.{checked_add, saturating_sub}
use kora_contract.Prelude.Results.{ok, answer, ◌>>=◌, ◌>>◌, guard, refuse_if, ok_or, unwrap}
use kora_contract.Prelude.Store.{update}
use kora_contract.Shared.Host.{Env, Address, require_auth}
use kora_contract.Shared.Token.{Token, transfer}
use kora_contract.Shared.Types.{Invoice, repaid, eq_status}
use kora_contract.InvoiceNft.State.{NftState}
use kora_contract.InvoiceNft.Views.{get_sme_referrer, get_first_mint, get_invoice}
use kora_contract.ReferralRewards.State.{ReferralError, RewardsState, Call}

-- The bonus does not exceed the allocation, and this contract, its admin, the invoice contract and the
-- token are four addresses.
abbrev is_configuration : Env → Address → Address → Address → ℤ → ℤ → Bool
is_configuration env admin invoice_nft token bonus allocation =
    not (leb_ℤ bonus (pos 0))
    && not (leb_ℤ allocation (pos 0))
    && not (ltb_ℤ allocation bonus)
    && not (admin == env.contract)
    && not (invoice_nft == env.contract)
    && not (token == env.contract)
    && not (admin == invoice_nft)
    && not (admin == token)
    && not (invoice_nft == token)

unfoldable pub initialize :
    Env → RewardsState → Address → Address → Address → ℤ → ℤ → Call RewardsState
initialize env s admin invoice_nft token bonus allocation = do
  refuse_if (is_some s.admin) ReferralError.already_initialized
  guard (is_configuration env admin invoice_nft token bonus allocation)
      ReferralError.invalid_configuration
  ok (record s {
    admin = some admin;
    invoice_nft = some invoice_nft;
    token = some token;
    bonus = some bonus;
    allocation = some allocation;
    funded = some (pos 0);
    paid = some (pos 0);
  })

-- `funded.checked_add(amount).map_or(true, |n| n > allocation)`
abbrev exceeds : Option ℤ → ℤ → Bool
exceeds none allocation = true
exceeds (some n) allocation = ltb_ℤ allocation n

-- The invoice contract's answer about the first invoice.
abbrev is_repaid_invoice_of : Address → Option Invoice → Bool
is_repaid_invoice_of sme none = false
is_repaid_invoice_of sme (some invoice) = invoice.sme == sme && eq_status invoice.status repaid

-- The referrer to be paid: the first invoice of the SME, which is not its own referrer, is repaid.
unfoldable pub eligible_referrer : NftState → Address → Option Address
unfolding get_sme_referrer get_first_mint
eligible_referrer nft sme = elim (get_sme_referrer nft sme) [
  | none ↦ none
  | some referrer ↦ elim (get_first_mint nft sme) [
    | none ↦ none
    | some first ↦
        if not (referrer == sme) && is_repaid_invoice_of sme (answer (get_invoice nft first))
        then some referrer
        else none
  ]
]

module _ {W : Type 0} (t : Token W) (env : Env) where
  -- The rewards and the ledger after a call.
  unfoldable pub deposit : RewardsState → W → Address → ℤ → Call (RewardsState × W)
  deposit s w admin amount = do
    require_auth env admin
    configured ← ok_or s.admin ReferralError.not_initialized
    guard (admin == configured) ReferralError.not_admin
    refuse_if (leb_ℤ amount (pos 0)) ReferralError.invalid_amount
    let funded = unwrap_or s.funded (pos 0)
    allocation ← unwrap s.allocation
    refuse_if (exceeds (checked_add funded amount) allocation) ReferralError.allocation_exceeded
    token ← unwrap s.token
    w' ← transfer t w token admin env.contract amount
    sum ← unwrap (checked_add funded amount)
    ok (record s { funded = some sum }, w')

  -- The payment to an eligible referrer, if the funds suffice.
  unfoldable pub pay_reward : RewardsState → W → Address → Address → Call (RewardsState × W × Bool)
  pay_reward s w sme referrer = do
    bonus ← unwrap s.bonus
    funded ← unwrap s.funded
    paid ← unwrap s.paid
    (if ltb_ℤ (saturating_sub funded paid) bonus then ok (s, w, false) else (do
      token ← unwrap s.token
      (if ltb_ℤ (pos (t.balance w token env.contract)) bonus then ok (s, w, false) else (do
        sum ← unwrap (checked_add paid bonus)
        w' ← transfer t w token env.contract referrer bonus
        ok (record s { claimed = update s.claimed sme true; paid = some sum }, w', true)))))

  unfoldable pub claim_referral_reward :
      NftState → RewardsState → W → Address → Call (RewardsState × W × Bool)
  claim_referral_reward nft s w sme = do
    nft_addr ← ok_or s.invoice_nft ReferralError.not_initialized
    (if is_some (s.claimed sme) then ok (s, w, false) else elim (eligible_referrer nft sme) [
      | none ↦ ok (s, w, false)
      | some referrer ↦ pay_reward s w sme referrer
    ])

unfoldable pub has_claimed : RewardsState → Address → Bool
has_claimed s sme = is_some (s.claimed sme)

unfoldable pub paid_total : RewardsState → ℤ
paid_total s = unwrap_or s.paid (pos 0)
