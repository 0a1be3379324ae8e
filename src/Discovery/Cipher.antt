-- ===== src/Discovery/Cipher.antt =====
-- `_crypt`, a stream cipher that encodes and decodes alike.
use Prim.Native.Nat.{bit_xor}
use hass_tplink_easy_smart.Base.{ℕ, ◌+◌, ◌%◌, ◌≡◌, refl, List, [], ◌∷◌}
use hass_tplink_easy_smart.Base.Bits.{bit_xor_cancel}
use hass_tplink_easy_smart.Base.Lists.{length, get_or, set}

-- `_CIPHER_STATE`
unfoldable pub cipher_state : List ℕ
cipher_state =
    191 ∷ 155 ∷ 227 ∷ 202 ∷ 99 ∷ 162 ∷ 79 ∷ 104 ∷ 49 ∷ 18 ∷ 190 ∷ 164 ∷ 30 ∷ 76 ∷ 189 ∷ 131 ∷ 23
    ∷ 52 ∷ 86 ∷ 106 ∷ 207 ∷ 125 ∷ 126 ∷ 169 ∷ 196 ∷ 28 ∷ 172 ∷ 58 ∷ 188 ∷ 132 ∷ 160 ∷ 3 ∷ 36 ∷ 120
    ∷ 144 ∷ 168 ∷ 12 ∷ 231 ∷ 116 ∷ 44 ∷ 41 ∷ 97 ∷ 108 ∷ 213 ∷ 42 ∷ 198 ∷ 32 ∷ 148 ∷ 218 ∷ 107 ∷ 247
    ∷ 112 ∷ 204 ∷ 14 ∷ 66 ∷ 68 ∷ 91 ∷ 224 ∷ 206 ∷ 235 ∷ 33 ∷ 130 ∷ 203 ∷ 178 ∷ 1 ∷ 134 ∷ 199 ∷ 78
    ∷ 249 ∷ 123 ∷ 7 ∷ 145 ∷ 73 ∷ 208 ∷ 209 ∷ 100 ∷ 74 ∷ 115 ∷ 72 ∷ 118 ∷ 8 ∷ 22 ∷ 243 ∷ 147 ∷ 64
    ∷ 96 ∷ 5 ∷ 87 ∷ 60 ∷ 113 ∷ 233 ∷ 152 ∷ 31 ∷ 219 ∷ 143 ∷ 174 ∷ 232 ∷ 153 ∷ 245 ∷ 158 ∷ 254 ∷ 70
    ∷ 170 ∷ 75 ∷ 77 ∷ 215 ∷ 211 ∷ 59 ∷ 71 ∷ 133 ∷ 214 ∷ 157 ∷ 151 ∷ 6 ∷ 46 ∷ 81 ∷ 94 ∷ 136 ∷ 166
    ∷ 210 ∷ 4 ∷ 43 ∷ 241 ∷ 29 ∷ 223 ∷ 176 ∷ 67 ∷ 63 ∷ 186 ∷ 137 ∷ 129 ∷ 40 ∷ 248 ∷ 255 ∷ 55 ∷ 15
    ∷ 62 ∷ 183 ∷ 222 ∷ 105 ∷ 236 ∷ 197 ∷ 127 ∷ 54 ∷ 179 ∷ 194 ∷ 229 ∷ 185 ∷ 37 ∷ 90 ∷ 237 ∷ 184 ∷ 25
    ∷ 156 ∷ 173 ∷ 26 ∷ 187 ∷ 220 ∷ 2 ∷ 225 ∷ 0 ∷ 240 ∷ 50 ∷ 251 ∷ 212 ∷ 253 ∷ 167 ∷ 17 ∷ 193 ∷ 205
    ∷ 177 ∷ 21 ∷ 181 ∷ 246 ∷ 82 ∷ 226 ∷ 38 ∷ 101 ∷ 163 ∷ 182 ∷ 242 ∷ 92 ∷ 20 ∷ 11 ∷ 95 ∷ 13 ∷ 230
    ∷ 16 ∷ 121 ∷ 124 ∷ 109 ∷ 195 ∷ 117 ∷ 39 ∷ 98 ∷ 239 ∷ 84 ∷ 56 ∷ 139 ∷ 161 ∷ 47 ∷ 201 ∷ 51 ∷ 135
    ∷ 250 ∷ 10 ∷ 19 ∷ 150 ∷ 45 ∷ 111 ∷ 27 ∷ 24 ∷ 142 ∷ 80 ∷ 85 ∷ 83 ∷ 234 ∷ 138 ∷ 216 ∷ 57 ∷ 93 ∷ 65
    ∷ 154 ∷ 141 ∷ 122 ∷ 34 ∷ 140 ∷ 128 ∷ 238 ∷ 88 ∷ 89 ∷ 9 ∷ 146 ∷ 171 ∷ 149 ∷ 53 ∷ 102 ∷ 61 ∷ 114
    ∷ 69 ∷ 217 ∷ 175 ∷ 103 ∷ 228 ∷ 35 ∷ 180 ∷ 252 ∷ 200 ∷ 192 ∷ 165 ∷ 159 ∷ 221 ∷ 244 ∷ 110 ∷ 119
    ∷ 48 ∷ []

-- `state[i]`, for an index below 256.
state_at : List ℕ → ℕ → ℕ
state_at state i = get_or state i 0

-- `state[i], state[j] = state[j], state[i]`
swap : List ℕ → ℕ → ℕ → List ℕ
unfolding state_at
swap state i j = set (set state i (state_at state j)) j (state_at state i)

-- The loop, from `index` on with its `state` and `j`.
unfoldable pub crypt_from : List ℕ → ℕ → ℕ → List ℕ → List ℕ
unfolding state_at swap
crypt_from state index j [] = []
crypt_from state index j (byte ∷ output) =
    let i = (index + 1) % 256 in
    let next = (j + state_at state i) % 256 in
    let swapped = swap state i next in
    bit_xor byte (state_at swapped ((state_at swapped i + state_at swapped next) % 256))
    ∷ crypt_from swapped (index + 1) next output

unfoldable pub crypt : List ℕ → List ℕ
crypt data' = crypt_from cipher_state 0 0 data'

crypt_from_cancel :
    (state : List ℕ) (index j : ℕ) (data' : List ℕ)
    → crypt_from state index j (crypt_from state index j data') ≡ data'
unfolding crypt_from
crypt_from_cancel state index j [] = refl
crypt_from_cancel state index j (byte ∷ data') =
    let i = (index + 1) % 256 in
    let next = (j + state_at state i) % 256 in
    let swapped = swap state i next in
    rw
      (
        bit_xor_cancel byte (state_at swapped ((state_at swapped i + state_at swapped next) % 256)),
        crypt_from_cancel swapped (index + 1) next data',
      )
      refl

-- Applied twice, the cipher gives the datagram back.
pub crypt-crypt : (data' : List ℕ) → crypt (crypt data') ≡ data'
unfolding crypt
crypt-crypt data' = crypt_from_cancel cipher_state 0 0 data'

length-crypt_from :
    (state : List ℕ) (index j : ℕ) (data' : List ℕ)
    → length (crypt_from state index j data') ≡ length data'
unfolding crypt_from
length-crypt_from state index j [] = refl
length-crypt_from state index j (byte ∷ data') =
    let i = (index + 1) % 256 in
    let next = (j + state_at state i) % 256 in
    rw (length-crypt_from (swap state i next) (index + 1) next data') refl

pub length-crypt : (data' : List ℕ) → length (crypt data') ≡ length data'
unfolding crypt
length-crypt data' = length-crypt_from cipher_state 0 0 data'
