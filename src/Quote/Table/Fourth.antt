-- ===== src/Quote/Table/Fourth.antt =====
-- Rows of `GO_PRINTABLE` of src/quote.rs, from 0x16a40 to 0xe01ef.
use speedtest_cli_rust.Base.{[], ◌∷◌, List}
use speedtest_cli_rust.Base.Ranges.{Range}

abbrev pub fourth_rows : List Range
fourth_rows =
    (0x16a40, 0x16a5e)
    ∷ (0x16a60, 0x16a69)
    ∷ (0x16a6e, 0x16abe)
    ∷ (0x16ac0, 0x16ac9)
    ∷ (0x16ad0, 0x16aed)
    ∷ (0x16af0, 0x16af5)
    ∷ (0x16b00, 0x16b45)
    ∷ (0x16b50, 0x16b59)
    ∷ (0x16b5b, 0x16b61)
    ∷ (0x16b63, 0x16b77)
    ∷ (0x16b7d, 0x16b8f)
    ∷ (0x16e40, 0x16e9a)
    ∷ (0x16f00, 0x16f4a)
    ∷ (0x16f4f, 0x16f87)
    ∷ (0x16f8f, 0x16f9f)
    ∷ (0x16fe0, 0x16fe4)
    ∷ (0x16ff0, 0x16ff1)
    ∷ (0x17000, 0x187f7)
    ∷ (0x18800, 0x18cd5)
    ∷ (0x18d00, 0x18d08)
    ∷ (0x1aff0, 0x1aff3)
    ∷ (0x1aff5, 0x1affb)
    ∷ (0x1affd, 0x1affe)
    ∷ (0x1b000, 0x1b122)
    ∷ (0x1b132, 0x1b132)
    ∷ (0x1b150, 0x1b152)
    ∷ (0x1b155, 0x1b155)
    ∷ (0x1b164, 0x1b167)
    ∷ (0x1b170, 0x1b2fb)
    ∷ (0x1bc00, 0x1bc6a)
    ∷ (0x1bc70, 0x1bc7c)
    ∷ (0x1bc80, 0x1bc88)
    ∷ (0x1bc90, 0x1bc99)
    ∷ (0x1bc9c, 0x1bc9f)
    ∷ (0x1cf00, 0x1cf2d)
    ∷ (0x1cf30, 0x1cf46)
    ∷ (0x1cf50, 0x1cfc3)
    ∷ (0x1d000, 0x1d0f5)
    ∷ (0x1d100, 0x1d126)
    ∷ (0x1d129, 0x1d172)
    ∷ (0x1d17b, 0x1d1ea)
    ∷ (0x1d200, 0x1d245)
    ∷ (0x1d2c0, 0x1d2d3)
    ∷ (0x1d2e0, 0x1d2f3)
    ∷ (0x1d300, 0x1d356)
    ∷ (0x1d360, 0x1d378)
    ∷ (0x1d400, 0x1d454)
    ∷ (0x1d456, 0x1d49c)
    ∷ (0x1d49e, 0x1d49f)
    ∷ (0x1d4a2, 0x1d4a2)
    ∷ (0x1d4a5, 0x1d4a6)
    ∷ (0x1d4a9, 0x1d4ac)
    ∷ (0x1d4ae, 0x1d4b9)
    ∷ (0x1d4bb, 0x1d4bb)
    ∷ (0x1d4bd, 0x1d4c3)
    ∷ (0x1d4c5, 0x1d505)
    ∷ (0x1d507, 0x1d50a)
    ∷ (0x1d50d, 0x1d514)
    ∷ (0x1d516, 0x1d51c)
    ∷ (0x1d51e, 0x1d539)
    ∷ (0x1d53b, 0x1d53e)
    ∷ (0x1d540, 0x1d544)
    ∷ (0x1d546, 0x1d546)
    ∷ (0x1d54a, 0x1d550)
    ∷ (0x1d552, 0x1d6a5)
    ∷ (0x1d6a8, 0x1d7cb)
    ∷ (0x1d7ce, 0x1da8b)
    ∷ (0x1da9b, 0x1da9f)
    ∷ (0x1daa1, 0x1daaf)
    ∷ (0x1df00, 0x1df1e)
    ∷ (0x1df25, 0x1df2a)
    ∷ (0x1e000, 0x1e006)
    ∷ (0x1e008, 0x1e018)
    ∷ (0x1e01b, 0x1e021)
    ∷ (0x1e023, 0x1e024)
    ∷ (0x1e026, 0x1e02a)
    ∷ (0x1e030, 0x1e06d)
    ∷ (0x1e08f, 0x1e08f)
    ∷ (0x1e100, 0x1e12c)
    ∷ (0x1e130, 0x1e13d)
    ∷ (0x1e140, 0x1e149)
    ∷ (0x1e14e, 0x1e14f)
    ∷ (0x1e290, 0x1e2ae)
    ∷ (0x1e2c0, 0x1e2f9)
    ∷ (0x1e2ff, 0x1e2ff)
    ∷ (0x1e4d0, 0x1e4f9)
    ∷ (0x1e7e0, 0x1e7e6)
    ∷ (0x1e7e8, 0x1e7eb)
    ∷ (0x1e7ed, 0x1e7ee)
    ∷ (0x1e7f0, 0x1e7fe)
    ∷ (0x1e800, 0x1e8c4)
    ∷ (0x1e8c7, 0x1e8d6)
    ∷ (0x1e900, 0x1e94b)
    ∷ (0x1e950, 0x1e959)
    ∷ (0x1e95e, 0x1e95f)
    ∷ (0x1ec71, 0x1ecb4)
    ∷ (0x1ed01, 0x1ed3d)
    ∷ (0x1ee00, 0x1ee03)
    ∷ (0x1ee05, 0x1ee1f)
    ∷ (0x1ee21, 0x1ee22)
    ∷ (0x1ee24, 0x1ee24)
    ∷ (0x1ee27, 0x1ee27)
    ∷ (0x1ee29, 0x1ee32)
    ∷ (0x1ee34, 0x1ee37)
    ∷ (0x1ee39, 0x1ee39)
    ∷ (0x1ee3b, 0x1ee3b)
    ∷ (0x1ee42, 0x1ee42)
    ∷ (0x1ee47, 0x1ee47)
    ∷ (0x1ee49, 0x1ee49)
    ∷ (0x1ee4b, 0x1ee4b)
    ∷ (0x1ee4d, 0x1ee4f)
    ∷ (0x1ee51, 0x1ee52)
    ∷ (0x1ee54, 0x1ee54)
    ∷ (0x1ee57, 0x1ee57)
    ∷ (0x1ee59, 0x1ee59)
    ∷ (0x1ee5b, 0x1ee5b)
    ∷ (0x1ee5d, 0x1ee5d)
    ∷ (0x1ee5f, 0x1ee5f)
    ∷ (0x1ee61, 0x1ee62)
    ∷ (0x1ee64, 0x1ee64)
    ∷ (0x1ee67, 0x1ee6a)
    ∷ (0x1ee6c, 0x1ee72)
    ∷ (0x1ee74, 0x1ee77)
    ∷ (0x1ee79, 0x1ee7c)
    ∷ (0x1ee7e, 0x1ee7e)
    ∷ (0x1ee80, 0x1ee89)
    ∷ (0x1ee8b, 0x1ee9b)
    ∷ (0x1eea1, 0x1eea3)
    ∷ (0x1eea5, 0x1eea9)
    ∷ (0x1eeab, 0x1eebb)
    ∷ (0x1eef0, 0x1eef1)
    ∷ (0x1f000, 0x1f02b)
    ∷ (0x1f030, 0x1f093)
    ∷ (0x1f0a0, 0x1f0ae)
    ∷ (0x1f0b1, 0x1f0bf)
    ∷ (0x1f0c1, 0x1f0cf)
    ∷ (0x1f0d1, 0x1f0f5)
    ∷ (0x1f100, 0x1f1ad)
    ∷ (0x1f1e6, 0x1f202)
    ∷ (0x1f210, 0x1f23b)
    ∷ (0x1f240, 0x1f248)
    ∷ (0x1f250, 0x1f251)
    ∷ (0x1f260, 0x1f265)
    ∷ (0x1f300, 0x1f6d7)
    ∷ (0x1f6dc, 0x1f6ec)
    ∷ (0x1f6f0, 0x1f6fc)
    ∷ (0x1f700, 0x1f776)
    ∷ (0x1f77b, 0x1f7d9)
    ∷ (0x1f7e0, 0x1f7eb)
    ∷ (0x1f7f0, 0x1f7f0)
    ∷ (0x1f800, 0x1f80b)
    ∷ (0x1f810, 0x1f847)
    ∷ (0x1f850, 0x1f859)
    ∷ (0x1f860, 0x1f887)
    ∷ (0x1f890, 0x1f8ad)
    ∷ (0x1f8b0, 0x1f8b1)
    ∷ (0x1f900, 0x1fa53)
    ∷ (0x1fa60, 0x1fa6d)
    ∷ (0x1fa70, 0x1fa7c)
    ∷ (0x1fa80, 0x1fa88)
    ∷ (0x1fa90, 0x1fabd)
    ∷ (0x1fabf, 0x1fac5)
    ∷ (0x1face, 0x1fadb)
    ∷ (0x1fae0, 0x1fae8)
    ∷ (0x1faf0, 0x1faf8)
    ∷ (0x1fb00, 0x1fb92)
    ∷ (0x1fb94, 0x1fbca)
    ∷ (0x1fbf0, 0x1fbf9)
    ∷ (0x20000, 0x2a6df)
    ∷ (0x2a700, 0x2b739)
    ∷ (0x2b740, 0x2b81d)
    ∷ (0x2b820, 0x2cea1)
    ∷ (0x2ceb0, 0x2ebe0)
    ∷ (0x2f800, 0x2fa1d)
    ∷ (0x30000, 0x3134a)
    ∷ (0x31350, 0x323af)
    ∷ (0xe0100, 0xe01ef)
    ∷ []
