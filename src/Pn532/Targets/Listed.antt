-- ===== src/Pn532/Targets/Listed.antt =====
-- The form of the target list that components/pn532/src/pn532_cmd.c reads.
use smart_lock_firmware.Common.{
  ℕ, suc, ◌+◌, ◌/◌, ◌%◌, ◌≤◌, ◌≡◌, ◌≢◌, ◌⊎◌, inl, inr, refl, sym, ap, ◌∙◌, some, List, [], ◌∷◌,
  ◌++◌, Bytes, ◌==◌, if◌then◌else◌, length, get_or, take, drop, arith, length-append,
  take-append_at, drop-append_at, subst,
}
use mathlib.Core.List.{append_assoc}
use smart_lock_firmware.Pn532.Commands.{PassiveTarget}
use smart_lock_firmware.Pn532.Targets.{read_target, read_targets}
use smart_lock_firmware.Pn532.Frame.Layout.{get_or-append_at, get_or-append_here}

-- The ATS behind a length byte that counts the bytes after it, where bit 5 of the SAK is set.
abbrev pub ats_bytes : ℕ → Bytes → Bytes
ats_bytes sak ats = if sak / 32 % 2 == 1 then length ats ∷ ats else []

-- The layout of a target in the response.
abbrev pub target_bytes : ℕ → ℕ → ℕ → ℕ → Bytes → Bytes → Bytes
target_bytes tg first second sak nfcid ats =
    tg ∷ first ∷ second ∷ sak ∷ length nfcid ∷ (nfcid ++ ats_bytes sak ats)

abbrev pub target : ℕ → ℕ → ℕ → ℕ → Bytes → Bytes → PassiveTarget
target tg first second sak nfcid ats = record {
  tg = tg;
  atqa = first ∷ second ∷ [];
  sak = sak;
  nfcid = nfcid;
  ats = ats;
}

module _ (off : ℕ) (front rest nfcid ats : Bytes) (tg first second sak : ℕ)
    (at_off : length front ≡ off) (small : length nfcid ≤ 10) where
  abbrev tail : Bytes
  tail = tg ∷ first ∷ second ∷ sak ∷ length nfcid ∷ (nfcid ++ (ats_bytes sak ats ++ rest))

  abbrev rsp : Bytes
  rsp = front ++ tail

  at : (i : ℕ) → get_or rsp (off + i) 0 ≡ get_or tail i 0
  at i = get_or-append_at off i front tail at_off

  rsp-long : off + 5 + length nfcid + length (ats_bytes sak ats ++ rest) ≡ length rsp
  rsp-long =
      omega (arith, length-append front tail, length-append nfcid (ats_bytes sak ats ++ rest))

  abbrev head : Bytes
  head = tg ∷ first ∷ second ∷ sak ∷ length nfcid ∷ []

  -- The target up to its ATS.
  abbrev known : Bytes
  known = (front ++ head) ++ nfcid

  length-known : length known ≡ off + 5 + length nfcid
  length-known = omega (arith, length-append front head, length-append (front ++ head) nfcid)

  -- A part of the response behind what precedes it.
  known-append : (xs : Bytes) → known ++ xs ≡ front ++ (head ++ (nfcid ++ xs))
  known-append xs = append_assoc (front ++ head) nfcid xs ∙ append_assoc front head (nfcid ++ xs)

  nfcid_read : take (length nfcid) (drop (off + 5) rsp) ≡ nfcid
  nfcid_read =
      subst (λ xs. take (length nfcid) (drop (off + 5) xs) ≡ nfcid)
        (append_assoc front head (nfcid ++ (ats_bytes sak ats ++ rest)))
        (rw
          (drop-append_at (off + 5) (front ++ head) (nfcid ++ (ats_bytes sak ats ++ rest))
            (omega (arith, length-append front head)))
          (take-append_at (length nfcid) nfcid (ats_bytes sak ats ++ rest) refl))

  past_read : get_or rsp (off + 5 + length nfcid) 0 ≡ get_or (ats_bytes sak ats ++ rest) 0 0
  past_read =
      subst (λ xs. get_or xs (off + 5 + length nfcid) 0 ≡ get_or (ats_bytes sak ats ++ rest) 0 0)
        (known-append (ats_bytes sak ats ++ rest))
        (get_or-append_here (off + 5 + length nfcid) known (ats_bytes sak ats ++ rest) length-known)

  ats_read :
      ats_bytes sak ats ≡ length ats ∷ ats
      → take (length ats) (drop (off + 5 + length nfcid + 1) rsp) ≡ ats
  ats_read e =
      let more : Bytes = length ats ∷ [] in
      let whole : (known ++ more) ++ (ats ++ rest) ≡ rsp =
        append_assoc known more (ats ++ rest)
        ∙ known-append (length ats ∷ (ats ++ rest))
        ∙ rw e refl in
      subst (λ xs. take (length ats) (drop (off + 5 + length nfcid + 1) xs) ≡ ats) whole
        (rw
          (drop-append_at (off + 5 + length nfcid + 1) (known ++ more) (ats ++ rest)
            (omega (arith, length-append known more, length-known)))
          (take-append_at (length ats) ats rest refl))

  read_target-target :
      (sak / 32 % 2 ≡ 1) ⊎ ((sak / 32 % 2 ≢ 1) × (ats ≡ []))
      → read_target rsp off
        ≡ some (
          target tg first second sak nfcid ats,
          off + length (target_bytes tg first second sak nfcid ats),
        )
  unfolding read_target
  read_target-target (inl bit) =
      let sent : ats_bytes sak ats ≡ length ats ∷ ats = (ground (arith, bit)) in
      let len_read : get_or rsp (off + 5 + length nfcid) 0 ≡ length ats =
        past_read ∙ rw sent refl in
      let long : length (ats_bytes sak ats) ≡ length ats + 1 = (rw sent (omega arith)) in
      rw
        (
          at 3,
          at 4,
          get_or-append_here off front tail at_off,
          at 1,
          at 2,
          nfcid_read,
          len_read,
          ats_read sent,
          read_target,
        )
        (ground (
          arith,
          small,
          bit,
          long,
          rsp-long,
          length-append nfcid (ats_bytes sak ats),
          length-append (ats_bytes sak ats) rest,
        ))
  read_target-target (inr (clear, none_sent)) =
      let sent : ats_bytes sak ats ≡ [] = (ground (arith, clear)) in
      let gone : length (ats_bytes sak ats) ≡ 0 = (rw sent refl) in
      rw (at 3, at 4, get_or-append_here off front tail at_off, at 1, at 2, nfcid_read, read_target)
        (ground (
          arith,
          small,
          clear,
          none_sent,
          gone,
          rsp-long,
          length-append nfcid (ats_bytes sak ats),
          length-append (ats_bytes sak ats) rest,
        ))

-- What the layout can carry of a target: two ATQA bytes, an NFCID of at most 10 bytes, and no ATS where bit
-- 5 of the SAK is clear.
pub record IsTarget (t : PassiveTarget) : Type 0 where
  pub atqa : t.atqa ≡ get_or t.atqa 0 0 ∷ get_or t.atqa 1 0 ∷ []
  pub nfcid : length t.nfcid ≤ 10
  pub ats : (t.sak / 32 % 2 ≡ 1) ⊎ ((t.sak / 32 % 2 ≢ 1) × (t.ats ≡ []))

abbrev pub AreTargets : List PassiveTarget → Type 0
AreTargets [] = Unit
AreTargets (t ∷ ts) = IsTarget t × AreTargets ts

abbrev pub bytes_of : PassiveTarget → Bytes
bytes_of t = target_bytes t.tg (get_or t.atqa 0 0) (get_or t.atqa 1 0) t.sak t.nfcid t.ats

abbrev pub list_bytes : List PassiveTarget → Bytes
list_bytes [] = []
list_bytes (t ∷ ts) = bytes_of t ++ list_bytes ts

read_target-bytes_of :
    (off : ℕ) (front rest : Bytes) (t : PassiveTarget)
    → length front ≡ off
    → IsTarget t
    → read_target (front ++ (bytes_of t ++ rest)) off ≡ some (t, off + length (bytes_of t))
read_target-bytes_of off front rest t at_off ok =
    let shape : target t.tg (get_or t.atqa 0 0) (get_or t.atqa 1 0) t.sak t.nfcid t.ats ≡ t =
      ap (λ (atqa : Bytes). record t { atqa = atqa }) (sym ok.atqa) in
    let first = get_or t.atqa 0 0 in
    let second = get_or t.atqa 1 0 in
    let head : Bytes = t.tg ∷ first ∷ second ∷ t.sak ∷ length t.nfcid ∷ [] in
    subst
      (λ (tail : Bytes).
        read_target (front ++ (head ++ tail)) off ≡ some (t, off + length (bytes_of t)))
      (sym (append_assoc t.nfcid (ats_bytes t.sak t.ats) rest))
      (subst
        (λ u.
          read_target (front ++ (head ++ (t.nfcid ++ (ats_bytes t.sak t.ats ++ rest)))) off
          ≡ some (u, off + length (bytes_of t)))
        shape
        (read_target-target off front rest t.nfcid t.ats t.tg first second t.sak at_off ok.nfcid
          ok.ats))

-- Targets laid out one after the other, each ATS behind a length byte that counts the bytes after it,
-- are read back with all their fields, whatever stands before and behind them.
pub read_targets-list_bytes :
    (off : ℕ) (front rest : Bytes) (ts : List PassiveTarget)
    → length front ≡ off
    → AreTargets ts
    → read_targets (length ts) (front ++ (list_bytes ts ++ rest)) off ≡ some ts
unfolding read_targets
read_targets-list_bytes off front rest [] at_off ok = refl
read_targets-list_bytes off front rest (t ∷ ts) at_off (first, others) =
    let more : Bytes = list_bytes ts ++ rest in
    let past = off + length (bytes_of t) in
    let one : read_target (front ++ (bytes_of t ++ more)) off ≡ some (t, past) =
      read_target-bytes_of off front more t at_off first in
    let others_read : read_targets (length ts) (front ++ (bytes_of t ++ more)) past ≡ some ts =
      subst (λ buf. read_targets (length ts) buf past ≡ some ts)
        (append_assoc front (bytes_of t) more)
        (read_targets-list_bytes past (front ++ bytes_of t) rest ts
          (omega (arith, length-append front (bytes_of t))) others) in
    subst (λ (tail : Bytes). read_targets (suc (length ts)) (front ++ tail) off ≡ some (t ∷ ts))
      (sym (append_assoc (bytes_of t) (list_bytes ts) rest))
      (rw (one, others_read, read_targets) refl)
