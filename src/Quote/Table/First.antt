-- ===== src/Quote/Table/First.antt =====
-- Rows of `GO_PRINTABLE` of src/quote.rs, from 0x0020 to 0x12c0.
use speedtest_cli_rust.Base.{[], ◌∷◌, List}
use speedtest_cli_rust.Base.Ranges.{Range}

abbrev pub first_rows : List Range
first_rows =
    (0x0020, 0x007e)
    ∷ (0x00a1, 0x00ac)
    ∷ (0x00ae, 0x0377)
    ∷ (0x037a, 0x037f)
    ∷ (0x0384, 0x038a)
    ∷ (0x038c, 0x038c)
    ∷ (0x038e, 0x03a1)
    ∷ (0x03a3, 0x052f)
    ∷ (0x0531, 0x0556)
    ∷ (0x0559, 0x058a)
    ∷ (0x058d, 0x058f)
    ∷ (0x0591, 0x05c7)
    ∷ (0x05d0, 0x05ea)
    ∷ (0x05ef, 0x05f4)
    ∷ (0x0606, 0x061b)
    ∷ (0x061d, 0x06dc)
    ∷ (0x06de, 0x070d)
    ∷ (0x0710, 0x074a)
    ∷ (0x074d, 0x07b1)
    ∷ (0x07c0, 0x07fa)
    ∷ (0x07fd, 0x082d)
    ∷ (0x0830, 0x083e)
    ∷ (0x0840, 0x085b)
    ∷ (0x085e, 0x085e)
    ∷ (0x0860, 0x086a)
    ∷ (0x0870, 0x088e)
    ∷ (0x0898, 0x08e1)
    ∷ (0x08e3, 0x0983)
    ∷ (0x0985, 0x098c)
    ∷ (0x098f, 0x0990)
    ∷ (0x0993, 0x09a8)
    ∷ (0x09aa, 0x09b0)
    ∷ (0x09b2, 0x09b2)
    ∷ (0x09b6, 0x09b9)
    ∷ (0x09bc, 0x09c4)
    ∷ (0x09c7, 0x09c8)
    ∷ (0x09cb, 0x09ce)
    ∷ (0x09d7, 0x09d7)
    ∷ (0x09dc, 0x09dd)
    ∷ (0x09df, 0x09e3)
    ∷ (0x09e6, 0x09fe)
    ∷ (0x0a01, 0x0a03)
    ∷ (0x0a05, 0x0a0a)
    ∷ (0x0a0f, 0x0a10)
    ∷ (0x0a13, 0x0a28)
    ∷ (0x0a2a, 0x0a30)
    ∷ (0x0a32, 0x0a33)
    ∷ (0x0a35, 0x0a36)
    ∷ (0x0a38, 0x0a39)
    ∷ (0x0a3c, 0x0a3c)
    ∷ (0x0a3e, 0x0a42)
    ∷ (0x0a47, 0x0a48)
    ∷ (0x0a4b, 0x0a4d)
    ∷ (0x0a51, 0x0a51)
    ∷ (0x0a59, 0x0a5c)
    ∷ (0x0a5e, 0x0a5e)
    ∷ (0x0a66, 0x0a76)
    ∷ (0x0a81, 0x0a83)
    ∷ (0x0a85, 0x0a8d)
    ∷ (0x0a8f, 0x0a91)
    ∷ (0x0a93, 0x0aa8)
    ∷ (0x0aaa, 0x0ab0)
    ∷ (0x0ab2, 0x0ab3)
    ∷ (0x0ab5, 0x0ab9)
    ∷ (0x0abc, 0x0ac5)
    ∷ (0x0ac7, 0x0ac9)
    ∷ (0x0acb, 0x0acd)
    ∷ (0x0ad0, 0x0ad0)
    ∷ (0x0ae0, 0x0ae3)
    ∷ (0x0ae6, 0x0af1)
    ∷ (0x0af9, 0x0aff)
    ∷ (0x0b01, 0x0b03)
    ∷ (0x0b05, 0x0b0c)
    ∷ (0x0b0f, 0x0b10)
    ∷ (0x0b13, 0x0b28)
    ∷ (0x0b2a, 0x0b30)
    ∷ (0x0b32, 0x0b33)
    ∷ (0x0b35, 0x0b39)
    ∷ (0x0b3c, 0x0b44)
    ∷ (0x0b47, 0x0b48)
    ∷ (0x0b4b, 0x0b4d)
    ∷ (0x0b55, 0x0b57)
    ∷ (0x0b5c, 0x0b5d)
    ∷ (0x0b5f, 0x0b63)
    ∷ (0x0b66, 0x0b77)
    ∷ (0x0b82, 0x0b83)
    ∷ (0x0b85, 0x0b8a)
    ∷ (0x0b8e, 0x0b90)
    ∷ (0x0b92, 0x0b95)
    ∷ (0x0b99, 0x0b9a)
    ∷ (0x0b9c, 0x0b9c)
    ∷ (0x0b9e, 0x0b9f)
    ∷ (0x0ba3, 0x0ba4)
    ∷ (0x0ba8, 0x0baa)
    ∷ (0x0bae, 0x0bb9)
    ∷ (0x0bbe, 0x0bc2)
    ∷ (0x0bc6, 0x0bc8)
    ∷ (0x0bca, 0x0bcd)
    ∷ (0x0bd0, 0x0bd0)
    ∷ (0x0bd7, 0x0bd7)
    ∷ (0x0be6, 0x0bfa)
    ∷ (0x0c00, 0x0c0c)
    ∷ (0x0c0e, 0x0c10)
    ∷ (0x0c12, 0x0c28)
    ∷ (0x0c2a, 0x0c39)
    ∷ (0x0c3c, 0x0c44)
    ∷ (0x0c46, 0x0c48)
    ∷ (0x0c4a, 0x0c4d)
    ∷ (0x0c55, 0x0c56)
    ∷ (0x0c58, 0x0c5a)
    ∷ (0x0c5d, 0x0c5d)
    ∷ (0x0c60, 0x0c63)
    ∷ (0x0c66, 0x0c6f)
    ∷ (0x0c77, 0x0c8c)
    ∷ (0x0c8e, 0x0c90)
    ∷ (0x0c92, 0x0ca8)
    ∷ (0x0caa, 0x0cb3)
    ∷ (0x0cb5, 0x0cb9)
    ∷ (0x0cbc, 0x0cc4)
    ∷ (0x0cc6, 0x0cc8)
    ∷ (0x0cca, 0x0ccd)
    ∷ (0x0cd5, 0x0cd6)
    ∷ (0x0cdd, 0x0cde)
    ∷ (0x0ce0, 0x0ce3)
    ∷ (0x0ce6, 0x0cef)
    ∷ (0x0cf1, 0x0cf3)
    ∷ (0x0d00, 0x0d0c)
    ∷ (0x0d0e, 0x0d10)
    ∷ (0x0d12, 0x0d44)
    ∷ (0x0d46, 0x0d48)
    ∷ (0x0d4a, 0x0d4f)
    ∷ (0x0d54, 0x0d63)
    ∷ (0x0d66, 0x0d7f)
    ∷ (0x0d81, 0x0d83)
    ∷ (0x0d85, 0x0d96)
    ∷ (0x0d9a, 0x0db1)
    ∷ (0x0db3, 0x0dbb)
    ∷ (0x0dbd, 0x0dbd)
    ∷ (0x0dc0, 0x0dc6)
    ∷ (0x0dca, 0x0dca)
    ∷ (0x0dcf, 0x0dd4)
    ∷ (0x0dd6, 0x0dd6)
    ∷ (0x0dd8, 0x0ddf)
    ∷ (0x0de6, 0x0def)
    ∷ (0x0df2, 0x0df4)
    ∷ (0x0e01, 0x0e3a)
    ∷ (0x0e3f, 0x0e5b)
    ∷ (0x0e81, 0x0e82)
    ∷ (0x0e84, 0x0e84)
    ∷ (0x0e86, 0x0e8a)
    ∷ (0x0e8c, 0x0ea3)
    ∷ (0x0ea5, 0x0ea5)
    ∷ (0x0ea7, 0x0ebd)
    ∷ (0x0ec0, 0x0ec4)
    ∷ (0x0ec6, 0x0ec6)
    ∷ (0x0ec8, 0x0ece)
    ∷ (0x0ed0, 0x0ed9)
    ∷ (0x0edc, 0x0edf)
    ∷ (0x0f00, 0x0f47)
    ∷ (0x0f49, 0x0f6c)
    ∷ (0x0f71, 0x0f97)
    ∷ (0x0f99, 0x0fbc)
    ∷ (0x0fbe, 0x0fcc)
    ∷ (0x0fce, 0x0fda)
    ∷ (0x1000, 0x10c5)
    ∷ (0x10c7, 0x10c7)
    ∷ (0x10cd, 0x10cd)
    ∷ (0x10d0, 0x1248)
    ∷ (0x124a, 0x124d)
    ∷ (0x1250, 0x1256)
    ∷ (0x1258, 0x1258)
    ∷ (0x125a, 0x125d)
    ∷ (0x1260, 0x1288)
    ∷ (0x128a, 0x128d)
    ∷ (0x1290, 0x12b0)
    ∷ (0x12b2, 0x12b5)
    ∷ (0x12b8, 0x12be)
    ∷ (0x12c0, 0x12c0)
    ∷ []
