-- ===== src/Codec/Nals/Header.antt =====
-- The decoder configuration record read back.
use mgw.Prelude.{
  ℕ, zero, suc, ◌+◌, ◌-◌, ◌%◌, ◌^◌, ◌≤◌, ◌<◌, ◌≡◌, refl, subst, ap, ◌∙◌, ◌&&◌, Option, none, some,
  List, [], ◌∷◌, ◌++◌, length, take, drop, take-append, drop-append, ◌==◌, if◌then◌else◌,
  Option-cases, inl, inr, arith,
}
use mgw.Serializer.{s_wb16}
use mgw.Serializer.Decode.{big}
use mgw.Codec.Startcode.{Bytes}
use mgw.Codec.Nals.{nal_type, Params, bytes_at, write_avc_header, parse_avc_header, get_avc_sps_pps}
use mgw.Codec.Nals.Stream.{Stream}
use mgw.Codec.Nals.Walk.{last_unit, get_avc_sps_pps-Stream}

-- ISO/IEC 14496-15, 5.3.3.1.2, with one set of each kind.
pub record AvcConfig : Type 0 where
  pub version : ℕ
  pub profile : ℕ
  pub compatibility : ℕ
  pub level : ℕ
  pub length_size : ℕ
  pub sps : List ℕ
  pub pps : List ℕ

read_pps : ℕ → ℕ → ℕ → ℕ → ℕ → List ℕ → List ℕ → Option AvcConfig
read_pps v a b c l sps (np ∷ g1 ∷ g0 ∷ rest) =
    if np == 1 && length rest == big 0 (g1 ∷ g0 ∷ [])
    then some (record {
      version = v;
      profile = a;
      compatibility = b;
      level = c;
      length_size = l % 4 + 1;
      sps = sps;
      pps = rest;
    })
    else none
read_pps v a b c l sps _ = none

pub read_avc_config : List ℕ → Option AvcConfig
unfolding read_pps
read_avc_config (v ∷ a ∷ b ∷ c ∷ l ∷ ns ∷ h1 ∷ h0 ∷ rest) =
    let n = big 0 (h1 ∷ h0 ∷ []) in
    if ns % 32 == 1 then read_pps v a b c l (take n rest) (drop n rest) else none
read_avc_config _ = none

length-bytes_at : (m : Bytes) (p n : ℕ) → length (bytes_at m p n) ≡ n
length-bytes_at m p zero = refl
length-bytes_at m p (suc n) = ap suc (length-bytes_at m (p + 1) n)

read_avc_config-append :
    (v a b c l h1 h0 g1 g0 : ℕ) (sps pps : List ℕ)
    → big 0 (h1 ∷ h0 ∷ []) ≡ length sps
    → big 0 (g1 ∷ g0 ∷ []) ≡ length pps
    → read_avc_config (v ∷ a ∷ b ∷ c ∷ l ∷ 225 ∷ h1 ∷ h0 ∷ (sps ++ (1 ∷ g1 ∷ g0 ∷ pps)))
      ≡ some (record {
        version = v;
        profile = a;
        compatibility = b;
        level = c;
        length_size = l % 4 + 1;
        sps = sps;
        pps = pps;
      })
unfolding read_avc_config
read_avc_config-append v a b c l h1 h0 g1 g0 sps pps hs hp =
    rw (hs, read_avc_config)
      (rw (take-append sps (1 ∷ g1 ∷ g0 ∷ pps), drop-append sps (1 ∷ g1 ∷ g0 ∷ pps))
        (ground (arith, hp)))

-- Four writes behind a list.
append_assoc-four :
    (xs ys : List ℕ) (a b c : ℕ)
    → ((((xs ++ (a ∷ [])) ++ (b ∷ [])) ++ (c ∷ [])) ++ ys) ≡ xs ++ (a ∷ b ∷ c ∷ ys)
append_assoc-four [] ys a b c = refl
append_assoc-four (x ∷ xs) ys a b c = ap (λ t. x ∷ t) (append_assoc-four xs ys a b c)

write_avc_header-read :
    (m : Bytes) (r : Params)
    → r.sps_size < 2 ^ 16
    → r.pps_size < 2 ^ 16
    → read_avc_config (write_avc_header m r)
      ≡ some (record {
        version = 1;
        profile = m (r.sps + 1);
        compatibility = m (r.sps + 2);
        level = m (r.sps + 3);
        length_size = 4;
        sps = bytes_at m r.sps r.sps_size;
        pps = bytes_at m r.pps r.pps_size;
      })
unfolding write_avc_header s_wb16
write_avc_header-read m r hs hp =
    let e2 : r.sps + 1 + 1 ≡ r.sps + 2 = omega arith in
    let e3 : r.sps + 2 + 1 ≡ r.sps + 3 = omega arith in
    rw append_assoc-four (
      rw (e2, e3)
        (read_avc_config-append 1 _ _ _ 255 _ _ _ _ _ _
          (omega (arith, length-bytes_at m r.sps r.sps_size))
          (omega (arith, length-bytes_at m r.pps r.pps_size))))

-- A unit stands behind the start of its stream.
last_unit-lt :
    (m : Bytes) (t end p : ℕ) (units : List (ℕ × ℕ)) (s e : ℕ)
    → Stream m end p units
    → last_unit m t units ≡ some (s, e)
    → p < s
last_unit-lt m t end p [] s e h w = absurd (ground (arith, w))
last_unit-lt m t end p ((s', e') ∷ units) s e (pre, lt, _, _, _, rest) w =
    let here : p < s' = elim pre [ inl (a, _) ↦ omega arith | inr (a, _, _) ↦ omega arith ] in
    elim (Option-cases (last_unit m t units)) [
      | inr (u, v) ↦
          let w' : last_unit m t units ≡ some (s, e) = v ∙ subst (λ o. later o ≡ some (s, e)) v w in
          let far : e' < s = last_unit-lt m t end e' units s e rest w' in omega arith
      | inl v ↦
          let w' : later none ≡ some (s, e) = subst (λ o. later o ≡ some (s, e)) v w in
          ground (arith, w')
    ]
  where
    later : Option (ℕ × ℕ) → Option (ℕ × ℕ)
    later o = elim o [ some u ↦ some u | none ↦ if nal_type m s' == t then some (s', e') else none ]

-- In a byte stream whose last unit of type 7 has from 4 to 65535 bytes and whose last unit of type 8
-- has at most 65535, `mgw_parse_avc_header` returns a decoder configuration record: a reader of it finds version 1, the
-- profile, compatibility and level of the SPS, NAL lengths of four bytes, and just the bytes of these
-- two units. More rounds of its loop than there are units are enough.
pub parse_avc_header-Stream :
    (m : Bytes) (data_start size fuel : ℕ) (units : List (ℕ × ℕ)) (s e s' e' : ℕ)
    → ((q : ℕ) → m q < 256)
    → 6 ≤ data_start + size
    → Stream m (data_start + size) data_start units
    → length units < fuel
    → last_unit m 7 units ≡ some (s, e)
    → last_unit m 8 units ≡ some (s', e')
    → 4 ≤ e - s
    → e - s < 2 ^ 16
    → e' - s' < 2 ^ 16
    → (header : List ℕ) × (parse_avc_header m fuel data_start size ≡ some (some header))
      × (read_avc_config header
          ≡ some (record {
            version = 1;
            profile = m (s + 1);
            compatibility = m (s + 2);
            level = m (s + 3);
            length_size = 4;
            sps = bytes_at m s (e - s);
            pps = bytes_at m s' (e' - s');
          }))
unfolding parse_avc_header
parse_avc_header-Stream m data_start size fuel units s e s' e' bytes high h f l7 l8 h4 hs hp =
    let r : Params = record { sps = s; sps_size = e - s; pps = s'; pps_size = e' - s' } in
    let null : Params = record { sps = 0; sps_size = 0; pps = 0; pps_size = 0 } in
    let got : get_avc_sps_pps m fuel data_start size null ≡ some r =
      get_avc_sps_pps-Stream m data_start size fuel units null bytes high h f ∙ rw (l7, l8) refl in
    let far = last_unit-lt m 7 (data_start + size) data_start units s e h l7 in
    let far' = last_unit-lt m 8 (data_start + size) data_start units s' e' h l8 in
    (
      write_avc_header m r,
      rw (got, parse_avc_header) (ground arith),
      write_avc_header-read m r hs hp,
    )

-- A record that can be read has more than four bytes.
pub read_avc_config-length :
    (header : List ℕ) (config : AvcConfig)
    → read_avc_config header ≡ some config
    → 4 < length header
unfolding read_avc_config
read_avc_config-length [] config h = absurd (ground (arith, h))
read_avc_config-length (a ∷ []) config h = absurd (ground (arith, h))
read_avc_config-length (a ∷ b ∷ []) config h = absurd (ground (arith, h))
read_avc_config-length (a ∷ b ∷ c ∷ []) config h = absurd (ground (arith, h))
read_avc_config-length (a ∷ b ∷ c ∷ d ∷ []) config h = absurd (ground (arith, h))
read_avc_config-length (a ∷ b ∷ c ∷ d ∷ e ∷ header) config h = omega arith
