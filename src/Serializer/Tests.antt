-- ===== src/Serializer/Tests.antt =====
-- Bytes that the writers append.
use mgw.Prelude.{◌≡◌, refl, [], ◌∷◌}
use mgw.Serializer.{s_wl24, s_wl16, s_wb32, s_wb16}

wl24 : s_wl24 (7 ∷ []) 66051 ≡ 7 ∷ 3 ∷ 2 ∷ 1 ∷ []
unfolding s_wl24 s_wl16
wl24 = refl

wb32 : s_wb32 (7 ∷ []) 16909060 ≡ 7 ∷ 1 ∷ 2 ∷ 3 ∷ 4 ∷ []
unfolding s_wb32 s_wb16
wb32 = refl
