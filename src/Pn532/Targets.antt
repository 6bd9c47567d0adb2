-- ===== src/Pn532/Targets.antt =====
-- `pn532_in_list_passive_target` of components/pn532/src/pn532_cmd.c: the parameters, and the list of
-- targets in the response.
pub mod Listed
use smart_lock_firmware.Common.{
  ℕ, zero, suc, ◌+◌, ◌/◌, ◌%◌, min, ◌&&◌, ◌||◌, Option, none, some, List, [], ◌∷◌, Bytes, ltb, ◌==◌,
  if◌then◌else◌, length, get_or, take, drop,
}
use smart_lock_firmware.Pn532.{EspCode, is_ok, max_payload_len}
use smart_lock_firmware.Pn532.Driver.{Handle}
use smart_lock_firmware.Pn532.Commands.{PassiveTarget, exchange}

-- One round of the loop over the targets: the target at an offset and the offset behind it; `none`
-- stands for `ESP_FAIL`.
unfoldable pub read_target : Bytes → ℕ → Option (PassiveTarget × ℕ)
read_target rsp off =
    let nfcid_len = get_or rsp (off + 4) 0 in
    let past_nfcid = off + 5 + nfcid_len in
    let ats_len = get_or rsp past_nfcid 0 in
    let target : Bytes → PassiveTarget = λ ats. record {
      tg = get_or rsp off 0;
      atqa = get_or rsp (off + 1) 0 ∷ get_or rsp (off + 2) 0 ∷ [];
      sak = get_or rsp (off + 3) 0;
      nfcid = take nfcid_len (drop (off + 5) rsp);
      ats = ats;
    } in
    if ltb (length rsp) (off + 5)
    then none
    else if ltb 10 nfcid_len
    then none
    else if ltb (length rsp) past_nfcid
    then none
    else if get_or rsp (off + 3) 0 / 32 % 2 == 1 && ltb past_nfcid (length rsp)
    then (if ltb (length rsp) (past_nfcid + 1 + ats_len)
        then none
        else some (target (take ats_len (drop (past_nfcid + 1) rsp)), past_nfcid + 1 + ats_len))
    else some (target [], past_nfcid)

-- The loop, over the number of targets to read.
unfoldable pub read_targets : ℕ → Bytes → ℕ → Option (List PassiveTarget)
read_targets zero rsp off = some []
read_targets (suc n) rsp off = elim (read_target rsp off) [
  | none ↦ none
  | some (target, past) ↦ elim (read_targets n rsp past) [
    | none ↦ none
    | some targets ↦ some (target ∷ targets)
  ]
]

module _ {B : Type 0} where
  -- The targets are as many as `num_targets_out` counts.
  unfoldable pub pn532_in_list_passive_target :
      Handle B → ℕ → ℕ → Bytes → ℕ → B → EspCode × List PassiveTarget × B
  pn532_in_list_passive_target h max_targets brty initiator_data timeout_ms b =
      if ltb max_targets 1 || ltb 2 max_targets
      then (EspCode.invalid_arg, [], b)
      else let (err, rsp, b1) =
          exchange h 0x4A (max_targets ∷ brty ∷ initiator_data) max_payload_len 2 timeout_ms b in
        let nb_tg = get_or rsp 1 0 in
        if is_ok err
        then elim (read_targets (min nb_tg max_targets) rsp 2) [
          | none ↦ (EspCode.fail, [], b1)
          | some targets ↦ (EspCode.ok, targets, b1)
        ]
        else (err, [], b1)
