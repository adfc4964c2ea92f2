-- ===== src/Quote/Table/Second.antt =====
-- Rows of `GO_PRINTABLE` of src/quote.rs, from 0x12c2 to 0x1019c.
use speedtest_cli_rust.Base.{[], ◌∷◌, List}
use speedtest_cli_rust.Base.Ranges.{Range}

abbrev pub second_rows : List Range
second_rows =
    (0x12c2, 0x12c5)
    ∷ (0x12c8, 0x12d6)
    ∷ (0x12d8, 0x1310)
    ∷ (0x1312, 0x1315)
    ∷ (0x1318, 0x135a)
    ∷ (0x135d, 0x137c)
    ∷ (0x1380, 0x1399)
    ∷ (0x13a0, 0x13f5)
    ∷ (0x13f8, 0x13fd)
    ∷ (0x1400, 0x167f)
    ∷ (0x1681, 0x169c)
    ∷ (0x16a0, 0x16f8)
    ∷ (0x1700, 0x1715)
    ∷ (0x171f, 0x1736)
    ∷ (0x1740, 0x1753)
    ∷ (0x1760, 0x176c)
    ∷ (0x176e, 0x1770)
    ∷ (0x1772, 0x1773)
    ∷ (0x1780, 0x17dd)
    ∷ (0x17e0, 0x17e9)
    ∷ (0x17f0, 0x17f9)
    ∷ (0x1800, 0x180d)
    ∷ (0x180f, 0x1819)
    ∷ (0x1820, 0x1878)
    ∷ (0x1880, 0x18aa)
    ∷ (0x18b0, 0x18f5)
    ∷ (0x1900, 0x191e)
    ∷ (0x1920, 0x192b)
    ∷ (0x1930, 0x193b)
    ∷ (0x1940, 0x1940)
    ∷ (0x1944, 0x196d)
    ∷ (0x1970, 0x1974)
    ∷ (0x1980, 0x19ab)
    ∷ (0x19b0, 0x19c9)
    ∷ (0x19d0, 0x19da)
    ∷ (0x19de, 0x1a1b)
    ∷ (0x1a1e, 0x1a5e)
    ∷ (0x1a60, 0x1a7c)
    ∷ (0x1a7f, 0x1a89)
    ∷ (0x1a90, 0x1a99)
    ∷ (0x1aa0, 0x1aad)
    ∷ (0x1ab0, 0x1ace)
    ∷ (0x1b00, 0x1b4c)
    ∷ (0x1b50, 0x1b7e)
    ∷ (0x1b80, 0x1bf3)
    ∷ (0x1bfc, 0x1c37)
    ∷ (0x1c3b, 0x1c49)
    ∷ (0x1c4d, 0x1c88)
    ∷ (0x1c90, 0x1cba)
    ∷ (0x1cbd, 0x1cc7)
    ∷ (0x1cd0, 0x1cfa)
    ∷ (0x1d00, 0x1f15)
    ∷ (0x1f18, 0x1f1d)
    ∷ (0x1f20, 0x1f45)
    ∷ (0x1f48, 0x1f4d)
    ∷ (0x1f50, 0x1f57)
    ∷ (0x1f59, 0x1f59)
    ∷ (0x1f5b, 0x1f5b)
    ∷ (0x1f5d, 0x1f5d)
    ∷ (0x1f5f, 0x1f7d)
    ∷ (0x1f80, 0x1fb4)
    ∷ (0x1fb6, 0x1fc4)
    ∷ (0x1fc6, 0x1fd3)
    ∷ (0x1fd6, 0x1fdb)
    ∷ (0x1fdd, 0x1fef)
    ∷ (0x1ff2, 0x1ff4)
    ∷ (0x1ff6, 0x1ffe)
    ∷ (0x2010, 0x2027)
    ∷ (0x2030, 0x205e)
    ∷ (0x2070, 0x2071)
    ∷ (0x2074, 0x208e)
    ∷ (0x2090, 0x209c)
    ∷ (0x20a0, 0x20c0)
    ∷ (0x20d0, 0x20f0)
    ∷ (0x2100, 0x218b)
    ∷ (0x2190, 0x2426)
    ∷ (0x2440, 0x244a)
    ∷ (0x2460, 0x2b73)
    ∷ (0x2b76, 0x2b95)
    ∷ (0x2b97, 0x2cf3)
    ∷ (0x2cf9, 0x2d25)
    ∷ (0x2d27, 0x2d27)
    ∷ (0x2d2d, 0x2d2d)
    ∷ (0x2d30, 0x2d67)
    ∷ (0x2d6f, 0x2d70)
    ∷ (0x2d7f, 0x2d96)
    ∷ (0x2da0, 0x2da6)
    ∷ (0x2da8, 0x2dae)
    ∷ (0x2db0, 0x2db6)
    ∷ (0x2db8, 0x2dbe)
    ∷ (0x2dc0, 0x2dc6)
    ∷ (0x2dc8, 0x2dce)
    ∷ (0x2dd0, 0x2dd6)
    ∷ (0x2dd8, 0x2dde)
    ∷ (0x2de0, 0x2e5d)
    ∷ (0x2e80, 0x2e99)
    ∷ (0x2e9b, 0x2ef3)
    ∷ (0x2f00, 0x2fd5)
    ∷ (0x2ff0, 0x2ffb)
    ∷ (0x3001, 0x303f)
    ∷ (0x3041, 0x3096)
    ∷ (0x3099, 0x30ff)
    ∷ (0x3105, 0x312f)
    ∷ (0x3131, 0x318e)
    ∷ (0x3190, 0x31e3)
    ∷ (0x31f0, 0x321e)
    ∷ (0x3220, 0xa48c)
    ∷ (0xa490, 0xa4c6)
    ∷ (0xa4d0, 0xa62b)
    ∷ (0xa640, 0xa6f7)
    ∷ (0xa700, 0xa7ca)
    ∷ (0xa7d0, 0xa7d1)
    ∷ (0xa7d3, 0xa7d3)
    ∷ (0xa7d5, 0xa7d9)
    ∷ (0xa7f2, 0xa82c)
    ∷ (0xa830, 0xa839)
    ∷ (0xa840, 0xa877)
    ∷ (0xa880, 0xa8c5)
    ∷ (0xa8ce, 0xa8d9)
    ∷ (0xa8e0, 0xa953)
    ∷ (0xa95f, 0xa97c)
    ∷ (0xa980, 0xa9cd)
    ∷ (0xa9cf, 0xa9d9)
    ∷ (0xa9de, 0xa9fe)
    ∷ (0xaa00, 0xaa36)
    ∷ (0xaa40, 0xaa4d)
    ∷ (0xaa50, 0xaa59)
    ∷ (0xaa5c, 0xaac2)
    ∷ (0xaadb, 0xaaf6)
    ∷ (0xab01, 0xab06)
    ∷ (0xab09, 0xab0e)
    ∷ (0xab11, 0xab16)
    ∷ (0xab20, 0xab26)
    ∷ (0xab28, 0xab2e)
    ∷ (0xab30, 0xab6b)
    ∷ (0xab70, 0xabed)
    ∷ (0xabf0, 0xabf9)
    ∷ (0xac00, 0xd7a3)
    ∷ (0xd7b0, 0xd7c6)
    ∷ (0xd7cb, 0xd7fb)
    ∷ (0xf900, 0xfa6d)
    ∷ (0xfa70, 0xfad9)
    ∷ (0xfb00, 0xfb06)
    ∷ (0xfb13, 0xfb17)
    ∷ (0xfb1d, 0xfb36)
    ∷ (0xfb38, 0xfb3c)
    ∷ (0xfb3e, 0xfb3e)
    ∷ (0xfb40, 0xfb41)
    ∷ (0xfb43, 0xfb44)
    ∷ (0xfb46, 0xfbc2)
    ∷ (0xfbd3, 0xfd8f)
    ∷ (0xfd92, 0xfdc7)
    ∷ (0xfdcf, 0xfdcf)
    ∷ (0xfdf0, 0xfe19)
    ∷ (0xfe20, 0xfe52)
    ∷ (0xfe54, 0xfe66)
    ∷ (0xfe68, 0xfe6b)
    ∷ (0xfe70, 0xfe74)
    ∷ (0xfe76, 0xfefc)
    ∷ (0xff01, 0xffbe)
    ∷ (0xffc2, 0xffc7)
    ∷ (0xffca, 0xffcf)
    ∷ (0xffd2, 0xffd7)
    ∷ (0xffda, 0xffdc)
    ∷ (0xffe0, 0xffe6)
    ∷ (0xffe8, 0xffee)
    ∷ (0xfffc, 0xfffd)
    ∷ (0x10000, 0x1000b)
    ∷ (0x1000d, 0x10026)
    ∷ (0x10028, 0x1003a)
    ∷ (0x1003c, 0x1003d)
    ∷ (0x1003f, 0x1004d)
    ∷ (0x10050, 0x1005d)
    ∷ (0x10080, 0x100fa)
    ∷ (0x10100, 0x10102)
    ∷ (0x10107, 0x10133)
    ∷ (0x10137, 0x1018e)
    ∷ (0x10190, 0x1019c)
    ∷ []
