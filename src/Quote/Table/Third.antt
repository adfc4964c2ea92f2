-- ===== src/Quote/Table/Third.antt =====
-- Rows of `GO_PRINTABLE` of src/quote.rs, from 0x101a0 to 0x16a38.
use speedtest_cli_rust.Base.{[], ◌∷◌, List}
use speedtest_cli_rust.Base.Ranges.{Range}

abbrev pub third_rows : List Range
third_rows =
    (0x101a0, 0x101a0)
    ∷ (0x101d0, 0x101fd)
    ∷ (0x10280, 0x1029c)
    ∷ (0x102a0, 0x102d0)
    ∷ (0x102e0, 0x102fb)
    ∷ (0x10300, 0x10323)
    ∷ (0x1032d, 0x1034a)
    ∷ (0x10350, 0x1037a)
    ∷ (0x10380, 0x1039d)
    ∷ (0x1039f, 0x103c3)
    ∷ (0x103c8, 0x103d5)
    ∷ (0x10400, 0x1049d)
    ∷ (0x104a0, 0x104a9)
    ∷ (0x104b0, 0x104d3)
    ∷ (0x104d8, 0x104fb)
    ∷ (0x10500, 0x10527)
    ∷ (0x10530, 0x10563)
    ∷ (0x1056f, 0x1057a)
    ∷ (0x1057c, 0x1058a)
    ∷ (0x1058c, 0x10592)
    ∷ (0x10594, 0x10595)
    ∷ (0x10597, 0x105a1)
    ∷ (0x105a3, 0x105b1)
    ∷ (0x105b3, 0x105b9)
    ∷ (0x105bb, 0x105bc)
    ∷ (0x10600, 0x10736)
    ∷ (0x10740, 0x10755)
    ∷ (0x10760, 0x10767)
    ∷ (0x10780, 0x10785)
    ∷ (0x10787, 0x107b0)
    ∷ (0x107b2, 0x107ba)
    ∷ (0x10800, 0x10805)
    ∷ (0x10808, 0x10808)
    ∷ (0x1080a, 0x10835)
    ∷ (0x10837, 0x10838)
    ∷ (0x1083c, 0x1083c)
    ∷ (0x1083f, 0x10855)
    ∷ (0x10857, 0x1089e)
    ∷ (0x108a7, 0x108af)
    ∷ (0x108e0, 0x108f2)
    ∷ (0x108f4, 0x108f5)
    ∷ (0x108fb, 0x1091b)
    ∷ (0x1091f, 0x10939)
    ∷ (0x1093f, 0x1093f)
    ∷ (0x10980, 0x109b7)
    ∷ (0x109bc, 0x109cf)
    ∷ (0x109d2, 0x10a03)
    ∷ (0x10a05, 0x10a06)
    ∷ (0x10a0c, 0x10a13)
    ∷ (0x10a15, 0x10a17)
    ∷ (0x10a19, 0x10a35)
    ∷ (0x10a38, 0x10a3a)
    ∷ (0x10a3f, 0x10a48)
    ∷ (0x10a50, 0x10a58)
    ∷ (0x10a60, 0x10a9f)
    ∷ (0x10ac0, 0x10ae6)
    ∷ (0x10aeb, 0x10af6)
    ∷ (0x10b00, 0x10b35)
    ∷ (0x10b39, 0x10b55)
    ∷ (0x10b58, 0x10b72)
    ∷ (0x10b78, 0x10b91)
    ∷ (0x10b99, 0x10b9c)
    ∷ (0x10ba9, 0x10baf)
    ∷ (0x10c00, 0x10c48)
    ∷ (0x10c80, 0x10cb2)
    ∷ (0x10cc0, 0x10cf2)
    ∷ (0x10cfa, 0x10d27)
    ∷ (0x10d30, 0x10d39)
    ∷ (0x10e60, 0x10e7e)
    ∷ (0x10e80, 0x10ea9)
    ∷ (0x10eab, 0x10ead)
    ∷ (0x10eb0, 0x10eb1)
    ∷ (0x10efd, 0x10f27)
    ∷ (0x10f30, 0x10f59)
    ∷ (0x10f70, 0x10f89)
    ∷ (0x10fb0, 0x10fcb)
    ∷ (0x10fe0, 0x10ff6)
    ∷ (0x11000, 0x1104d)
    ∷ (0x11052, 0x11075)
    ∷ (0x1107f, 0x110bc)
    ∷ (0x110be, 0x110c2)
    ∷ (0x110d0, 0x110e8)
    ∷ (0x110f0, 0x110f9)
    ∷ (0x11100, 0x11134)
    ∷ (0x11136, 0x11147)
    ∷ (0x11150, 0x11176)
    ∷ (0x11180, 0x111df)
    ∷ (0x111e1, 0x111f4)
    ∷ (0x11200, 0x11211)
    ∷ (0x11213, 0x11241)
    ∷ (0x11280, 0x11286)
    ∷ (0x11288, 0x11288)
    ∷ (0x1128a, 0x1128d)
    ∷ (0x1128f, 0x1129d)
    ∷ (0x1129f, 0x112a9)
    ∷ (0x112b0, 0x112ea)
    ∷ (0x112f0, 0x112f9)
    ∷ (0x11300, 0x11303)
    ∷ (0x11305, 0x1130c)
    ∷ (0x1130f, 0x11310)
    ∷ (0x11313, 0x11328)
    ∷ (0x1132a, 0x11330)
    ∷ (0x11332, 0x11333)
    ∷ (0x11335, 0x11339)
    ∷ (0x1133b, 0x11344)
    ∷ (0x11347, 0x11348)
    ∷ (0x1134b, 0x1134d)
    ∷ (0x11350, 0x11350)
    ∷ (0x11357, 0x11357)
    ∷ (0x1135d, 0x11363)
    ∷ (0x11366, 0x1136c)
    ∷ (0x11370, 0x11374)
    ∷ (0x11400, 0x1145b)
    ∷ (0x1145d, 0x11461)
    ∷ (0x11480, 0x114c7)
    ∷ (0x114d0, 0x114d9)
    ∷ (0x11580, 0x115b5)
    ∷ (0x115b8, 0x115dd)
    ∷ (0x11600, 0x11644)
    ∷ (0x11650, 0x11659)
    ∷ (0x11660, 0x1166c)
    ∷ (0x11680, 0x116b9)
    ∷ (0x116c0, 0x116c9)
    ∷ (0x11700, 0x1171a)
    ∷ (0x1171d, 0x1172b)
    ∷ (0x11730, 0x11746)
    ∷ (0x11800, 0x1183b)
    ∷ (0x118a0, 0x118f2)
    ∷ (0x118ff, 0x11906)
    ∷ (0x11909, 0x11909)
    ∷ (0x1190c, 0x11913)
    ∷ (0x11915, 0x11916)
    ∷ (0x11918, 0x11935)
    ∷ (0x11937, 0x11938)
    ∷ (0x1193b, 0x11946)
    ∷ (0x11950, 0x11959)
    ∷ (0x119a0, 0x119a7)
    ∷ (0x119aa, 0x119d7)
    ∷ (0x119da, 0x119e4)
    ∷ (0x11a00, 0x11a47)
    ∷ (0x11a50, 0x11aa2)
    ∷ (0x11ab0, 0x11af8)
    ∷ (0x11b00, 0x11b09)
    ∷ (0x11c00, 0x11c08)
    ∷ (0x11c0a, 0x11c36)
    ∷ (0x11c38, 0x11c45)
    ∷ (0x11c50, 0x11c6c)
    ∷ (0x11c70, 0x11c8f)
    ∷ (0x11c92, 0x11ca7)
    ∷ (0x11ca9, 0x11cb6)
    ∷ (0x11d00, 0x11d06)
    ∷ (0x11d08, 0x11d09)
    ∷ (0x11d0b, 0x11d36)
    ∷ (0x11d3a, 0x11d3a)
    ∷ (0x11d3c, 0x11d3d)
    ∷ (0x11d3f, 0x11d47)
    ∷ (0x11d50, 0x11d59)
    ∷ (0x11d60, 0x11d65)
    ∷ (0x11d67, 0x11d68)
    ∷ (0x11d6a, 0x11d8e)
    ∷ (0x11d90, 0x11d91)
    ∷ (0x11d93, 0x11d98)
    ∷ (0x11da0, 0x11da9)
    ∷ (0x11ee0, 0x11ef8)
    ∷ (0x11f00, 0x11f10)
    ∷ (0x11f12, 0x11f3a)
    ∷ (0x11f3e, 0x11f59)
    ∷ (0x11fb0, 0x11fb0)
    ∷ (0x11fc0, 0x11ff1)
    ∷ (0x11fff, 0x12399)
    ∷ (0x12400, 0x1246e)
    ∷ (0x12470, 0x12474)
    ∷ (0x12480, 0x12543)
    ∷ (0x12f90, 0x12ff2)
    ∷ (0x13000, 0x1342f)
    ∷ (0x13440, 0x13455)
    ∷ (0x14400, 0x14646)
    ∷ (0x16800, 0x16a38)
    ∷ []
