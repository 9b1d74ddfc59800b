-- ===== src/Lib.antt =====
-- Sheath manages fleets of compute blades. A central server (server/) keeps the inventory, an agent
-- on each blade (agent/) reports to it and fetches its commands, a mini OS (installer/) writes or
-- erases a blade's disk when it is netbooted, and a site (site/) relays for its blades and answers
-- for itself while the server cannot be reached.
--
-- How the parts interact: an operator's calls change the rows of the database; the reservations
-- of dnsmasq follow from those rows and carry the switch that decides whether a blade netboots;
-- a mini OS that has been netbooted asks what to do and reports, and the reports change the rows
-- again; agents report facts and health, from which the health of a blade and the alerts follow.
--
-- What is modelled, and where:
-- - Prelude: bytes and texts, decimal numbers, decoded JSON, list queries in the place of SQL.
-- - Server/Fleet: the tables of server/db.go as a record of lists. A row type has those of the
--   source's columns that the calls below read; a text that is "" where nothing is set is [] or `none`; a time is a number of seconds.
--   An UPDATE is `update_where`, a SELECT `select` or `find_first`, a DELETE a `select` of the rest.
-- - Server/Addressing, Server/Reservations: bladeIP, rackIndex, bladeMAC, bladeHostname,
--   nextRackOffset, checkSite, syncDHCP of server/ipam.go and server/db.go. `next_rack_offset`
--   takes fuel 251, which is enough since an offset ends at 250 and each step is 1 at least.
-- - Server/Placement: placeBlade of server/ipam.go and hBladeUpdate of server/api.go.
-- - Server/Lifecycle: arming, calling off, erasing, putting aside, firmware readings and forgetting,
--   of server/db.go. Server/Calls: these and the placements as data, with histories of them.
-- - Server/Targets, Server/Facts: server/targets.go, server/parttable.go and what a blade has
--   said of itself.
-- - Server/Netboot, Server/Provision: server/netboot.go's sessions, hProvision and
--   hProvisionStatus of server/api.go.
-- - Server/Agent: hBladeStatus, hBladeCommands, hBladeAction and sweepOffline.
-- - Server/Health, Server/Policy, Server/Alerts: evalHealthWith, server/policy.go, healthPass and
--   sendAlert of server/notify.go.
-- - Server/Accounts: server/users.go and the table of actions of server/usersui.go.
-- - Server/BootOrder: server/bootorder.go.
-- - Server/Racks: sites and BladeRunners of server/db.go, server/api.go and server/ui.go, and
--   renameSiteBlades. Racks stand in the order of listRacks; the constraints of the tables are tests.
-- - Server/Config: mergeInto, mergedConfig, hConfigPatch and hConfigPut of server/api.go, on objects
--   as lists of members. What a decoded object is, no name twice at any depth, is a hypothesis.
-- - Server/Sessions, Server/Enroll: server/session.go and server/enroll.go.
-- - Agent/BootConfig: the marked block of config.txt in agent/apply.go. Agent/Policy, Agent/Commands:
--   agent/policy.go, and maybeRestart and runCommands of agent/main.go.
-- - Agent/Seed: the seed of a blade, of agent/main.go and agent/server.go.
-- - Site/Fat: site/fat.go, an image as its bytes; the loop over the directory is bounded by its entries.
-- - Site/State: the desired state that a site holds and saves, and its buffer of events (site/site.go).
-- - Site/Relay: site/relay.go, the answers of a site that is cut off and its queue of reports.
-- - Server/Samples: a small installation that the witnesses run on.
--
-- Where a call reads the clock, draws a token or a code or asks another program, that is an argument: `now`,
-- `tok`, the key derivation and base64 of a password, the head of an image file, what
-- mergedConfig says of a blade, the centre's answers to a site, and the outcome of a mail. SQL statements succeed, and so does the writing of files.
-- JSON is decoded, its numbers are not negative, and measurements are in thousandths.
--
-- Not modelled: the pages of the interface and their texts, downloads of images and payloads, backups,
-- the files and processes of a site, sensors and tools of an agent, and the
-- disks of an installer. These are input and output around the calls above, or are left for later (the
-- agent's passes and its seed, hEnroll).
pub mod Agent
pub mod Prelude
pub mod Server
pub mod Site
